-- ===== src/Insight/Correlation/Pairs.antt =====
-- The loops over the pairs of alerts in `Correlate` of internal/insight/correlation/correlator.go.
use subnetree.Prelude.{
  ℕ, suc, ◌+◌, ◌<◌, String, Bool, true, false, Bool-cases, ◌≡◌, refl, ◌⊎◌, inl, inr, List, [], ◌∷◌,
  length, ℤ, arith,
}
use mathlib.Core.List.{Memᴰ}
use mathlib.Core.List.Memᴰ
use subnetree.Insight.Correlation.{
  Alert, Links, Parents, linked, join_pair, join_with, join_all, pairs,
}
use subnetree.Insight.Correlation.Joins.{Joins, Joins-trans, Partition, Partition-le, union-Joins}

-- `a` stands before `b`.
abbrev pub Before : Alert → Alert → List Alert → Type 0
Before a b [] = ⊥
Before a b (x ∷ xs) = ((a ≡ x) × Memᴰ b xs) ⊎ Before a b xs

module _ (R : String → String → Type 0) (unset : String → Bool) where
  module _ (fuel : ℕ) (adj : Links) (window : ℤ) where
    -- What the loops may assume of two alerts that they compare.
    abbrev pub Fits : Alert → Alert → Type 0
    Fits a b =
        (unset b.device_id ≡ false) × (linked adj window a b ≡ true → R a.device_id b.device_id)

    abbrev pub Agrees : (String → String) → Alert → Alert → Type 0
    Agrees rep a b = linked adj window a b ≡ true → rep a.device_id ≡ rep b.device_id

    module _ (a : Alert) (set_a : unset a.device_id ≡ false) where
      join_pair-Joins :
          (b : Alert) (k : ℕ) (parent : Parents) (rep : String → String)
          → Partition R unset k parent rep
          → k < fuel
          → Fits a b
          → Joins R unset
              (suc k)
              rep
              (join_pair fuel adj window a b parent)
              (λ rep'. Agrees rep' a b)
      unfolding join_pair
      join_pair-Joins b k parent rep p h fits = elim (Bool-cases (linked adj window a b)) [
        | inl joined ↦
            let s =
              union-Joins R unset k rep a.device_id b.device_id fuel parent p h set_a fits.0
                (fits.1 joined) in
            record {
              next = s.next;
              rep' = s.rep';
              runs = rw joined s.runs;
              partition = s.partition;
              coarser = s.coarser;
              holds = λ _. s.holds;
            }
        | inr apart ↦ record {
          next = parent;
          rep' = rep;
          runs = rw apart;
          partition = Partition-le R unset k (suc k) parent rep (omega arith) p;
          coarser = λ x y e. e;
          holds = λ joined. cc;
        }
      ]

      join_with-Joins :
          (bs : List Alert) (k n : ℕ) (parent : Parents) (rep : String → String)
          → Partition R unset k parent rep
          → n ≡ k + length bs
          → n < fuel
          → ((b : Alert) → Memᴰ b bs → Fits a b)
          → Joins R unset n rep
              (join_with fuel adj window a bs parent)
              (λ rep'. (b : Alert) → Memᴰ b bs → Agrees rep' a b)
      unfolding join_with
      join_with-Joins [] k n parent rep p e h fits = record {
        next = parent;
        rep' = rep;
        runs = refl;
        partition = Partition-le R unset k n parent rep (omega arith) p;
        coarser = λ x y q. q;
        holds = λ b m. absurd (Memᴰ.not-nil m);
      }
      join_with-Joins (b ∷ bs) k n parent rep p e h fits =
          let s = join_pair-Joins b k parent rep p (omega arith) (fits b (Memᴰ.head refl)) in
          Joins-trans R unset (suc k) n rep (join_pair fuel adj window a b parent)
            (join_with fuel adj window a bs) s
            (join_with-Joins bs (suc k) n s.next s.rep' s.partition (omega arith) h
              (λ c m. fits c (Memᴰ.tail m)))
            (λ rep' coarser later c m. elim (Memᴰ.cases_cons m) [
              | inl q ↦ λ l. rw q (coarser a.device_id b.device_id (s.holds (rw (← q) l)))
              | inr r ↦ later c r
            ])

    pub join_all-Joins :
        (alerts : List Alert) (k n : ℕ) (parent : Parents) (rep : String → String)
        → Partition R unset k parent rep
        → n ≡ k + pairs alerts
        → n < fuel
        → ((a b : Alert) → Memᴰ a alerts → Memᴰ b alerts → Fits a b)
        → Joins R unset n rep
            (join_all fuel adj window alerts parent)
            (λ rep'. (a b : Alert) → Before a b alerts → Agrees rep' a b)
    unfolding join_all pairs
    join_all-Joins [] k n parent rep p e h fits = record {
      next = parent;
      rep' = rep;
      runs = refl;
      partition = Partition-le R unset k n parent rep (omega arith) p;
      coarser = λ x y q. q;
      holds = λ a b m. absurd m;
    }
    join_all-Joins (x ∷ xs) k n parent rep p e h fits =
        let s =
          join_with-Joins x (fits x x (Memᴰ.head refl) (Memᴰ.head refl)).0 xs k (k + length xs)
            parent rep p refl (omega arith) (λ b m. fits x b (Memᴰ.head refl) (Memᴰ.tail m)) in
        Joins-trans R unset (k + length xs) n rep (join_with fuel adj window x xs parent)
          (join_all fuel adj window xs) s
          (join_all-Joins xs (k + length xs) n s.next s.rep' s.partition (omega arith) h
            (λ a b m m'. fits a b (Memᴰ.tail m) (Memᴰ.tail m')))
          (λ rep' coarser later a b m. elim m [
            | inl (q, r) ↦ λ l. rw q (coarser x.device_id b.device_id (s.holds b r (rw (← q) l)))
            | inr r ↦ later a b r
          ])
