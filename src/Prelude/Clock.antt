-- ===== src/Prelude/Clock.antt =====
-- Ranges of the clock that may run over midnight.
use Prim.Native.Nat.{ℕ, ◌+◌, ◌-◌}
use subnetree.Prelude.Tests.{leb, if◌then◌else◌}

-- How long after `start` the clock next shows `t`, on a day of `day` units.
abbrev pub later : ℕ → ℕ → ℕ → ℕ
later day start t = if leb start t then t - start else day + t - start
