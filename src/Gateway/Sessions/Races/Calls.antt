-- ===== src/Gateway/Sessions/Races/Calls.antt =====
-- The calls of Create that are under way.
use subnetree.Prelude.{
  ℕ, zero, suc, ◌+◌, ◌≤◌, ◌<◌, ◌≡◌, refl, String, not, List, [], ◌∷◌, ◌++◌, map, ◌==◌, string_eq,
  length, keep, ltb, if◌then◌else◌, length-append, length-keep-le, arith,
}
use subnetree.Gateway.Sessions.{Session}
use subnetree.Gateway.Sessions.Races.{Call, counting, passed, staying, after_delete}

module _ (limit : ℕ) where
  -- How many calls may still store: those that passed, and those that may count below the limit.
  abbrev pub may_store : List Call → ℕ
  may_store [] = 0
  may_store (counting s n ∷ cs) = (if ltb n limit then 1 else 0) + may_store cs
  may_store (passed s ∷ cs) = 1 + may_store cs

-- A call that began earlier keeps no more sessions.
abbrev pub IsOrdered : ℕ → List Call → Type 0
IsOrdered most [] = Unit
IsOrdered most (counting s n ∷ cs) = (n ≤ most) × IsOrdered n cs
IsOrdered most (passed s ∷ cs) = IsOrdered most cs

pub IsOrdered-le :
    (most most' : ℕ) (cs : List Call) → most ≤ most' → IsOrdered most cs → IsOrdered most' cs
IsOrdered-le most most' [] h o = tt
IsOrdered-le most most' (counting s n ∷ cs) h (b, o) = (omega (arith, b, h), o)
IsOrdered-le most most' (passed s ∷ cs) h o = IsOrdered-le most most' cs h o

pub IsOrdered-remove :
    (most : ℕ) (before : List Call) (c : Call) (behind : List Call)
    → IsOrdered most (before ++ (c ∷ behind))
    → IsOrdered most (before ++ behind)
IsOrdered-remove most [] (counting s n) behind (b, o) = IsOrdered-le n most behind b o
IsOrdered-remove most [] (passed s) behind o = o
IsOrdered-remove most (counting s n ∷ before) c behind (b, o) =
    (b, IsOrdered-remove n before c behind o)
IsOrdered-remove most (passed s ∷ before) c behind o = IsOrdered-remove most before c behind o

-- A call that passes keeps the order of the others.
pub IsOrdered-pass :
    (most : ℕ) (before : List Call) (s : Session) (n : ℕ) (behind : List Call)
    → IsOrdered most (before ++ (counting s n ∷ behind))
    → IsOrdered most (before ++ (passed s ∷ behind))
IsOrdered-pass most [] s n behind (b, o) = IsOrdered-le n most behind b o
IsOrdered-pass most (counting x m ∷ before) s n behind (b, o) =
    (b, IsOrdered-pass m before s n behind o)
IsOrdered-pass most (passed x ∷ before) s n behind o = IsOrdered-pass most before s n behind o

pub staying_mono :
    (id : String) (ss : List Session) (n m : ℕ) → n ≤ m → staying id n ss ≤ staying id m ss
staying_mono id ss zero m h = omega arith
staying_mono id ss (suc n) zero h = absurd (omega (arith, h))
staying_mono id [] (suc n) (suc m) h = omega arith
staying_mono id (s ∷ ss) (suc n) (suc m) h =
    ground (arith, staying_mono id ss n m (omega (arith, h)))

-- Of the sessions behind the first ones no more can stay than there are.
pub staying-all :
    (id : String) (ss : List Session) (n : ℕ)
    → n ≤ length ss
    → (staying id n ss ≤ n)
      × (staying id n ss ≤ length (keep (λ s. not (s.id == id)) ss))
      × (length (keep (λ s. not (s.id == id)) ss) + n ≤ length ss + staying id n ss)
staying-all id ss zero h =
    (omega arith, omega arith, omega (arith, length-keep-le (λ s. not (s.id == id)) ss))
staying-all id [] (suc n) h = absurd (omega (arith, h))
staying-all id (s ∷ ss) (suc n) h =
    let rest = staying-all id ss n (omega (arith, h)) in
    (ground (arith, rest), ground (arith, rest), ground (arith, rest))

pub IsOrdered-map :
    (id : String) (ss : List Session) (most : ℕ) (cs : List Call)
    → IsOrdered most cs
    → IsOrdered (staying id most ss) (map (after_delete id ss) cs)
IsOrdered-map id ss most [] o = tt
IsOrdered-map id ss most (counting s n ∷ cs) (b, o) =
    (staying_mono id ss n most b, IsOrdered-map id ss n cs o)
IsOrdered-map id ss most (passed s ∷ cs) o = IsOrdered-map id ss most cs o

module _ (limit : ℕ) where
  pub may_store-le : (cs : List Call) → may_store limit cs ≤ length cs
  may_store-le [] = omega arith
  may_store-le (counting s n ∷ cs) = ground (arith, may_store-le cs)
  may_store-le (passed s ∷ cs) = ground (arith, may_store-le cs)

  pub may_store-append :
      (xs ys : List Call) → may_store limit (xs ++ ys) ≡ may_store limit xs + may_store limit ys
  may_store-append [] ys = omega arith
  may_store-append (counting s n ∷ xs) ys = ground (arith, may_store-append xs ys)
  may_store-append (passed s ∷ xs) ys = ground (arith, may_store-append xs ys)

  -- Behind a call that counts below the limit, every call may store.
  pub IsOrdered-may_store :
      (most : ℕ) (cs : List Call)
      → most < limit
      → IsOrdered most cs
      → may_store limit cs ≡ length cs
  IsOrdered-may_store most [] h o = refl
  IsOrdered-may_store most (counting s n ∷ cs) h (b, o) =
      ground (arith, b, h, IsOrdered-may_store n cs (omega (arith, b, h)) o)
  IsOrdered-may_store most (passed s ∷ cs) h o = ground (arith, IsOrdered-may_store most cs h o)

  -- Where a call cannot pass yet, few sessions came since it began, and few older calls are left; behind a
  -- call that passed, every call may store.
  abbrev pub Fits : ℕ → ℕ → List Call → Type 0
  Fits callers total [] = Unit
  Fits callers total (counting s n ∷ cs) =
      (limit ≤ n → length cs + total < callers + n) × Fits callers total cs
  Fits callers total (passed s ∷ cs) = (may_store limit cs ≡ length cs) × Fits callers total cs

  pub Fits-may_store :
      (callers total total' : ℕ) (cs : List Call)
      → may_store limit cs ≡ length cs
      → Fits callers total cs
      → Fits callers total' cs
  Fits-may_store callers total total' [] h v = tt
  Fits-may_store callers total total' (counting s n ∷ cs) h (q, v) =
      let few = may_store-le cs in
      (
        λ b. absurd (ground (arith, h, b, few)),
        Fits-may_store callers total total' cs (ground (arith, h, few)) v,
      )
  Fits-may_store callers total total' (passed s ∷ cs) h (q, v) =
      (q, Fits-may_store callers total total' cs q v)

  -- A call ends: by a refusal, or by its store, which adds at most one session.
  pub Fits-refuse :
      (callers total : ℕ) (before : List Call) (c : Call) (behind : List Call)
      → Fits callers total (before ++ (c ∷ behind))
      → Fits callers total (before ++ behind)
  Fits-refuse callers total [] (counting s n) behind (q, v) = v
  Fits-refuse callers total [] (passed s) behind (q, v) = v
  Fits-refuse callers total (counting s n ∷ before) c behind (q, v) = (
    λ b. omega (arith, q b, length-append before (c ∷ behind), length-append before behind),
    Fits-refuse callers total before c behind v,
  )
  Fits-refuse callers total (passed s ∷ before) c behind (q, v) = (
    omega (
      arith,
      q,
      length-append before (c ∷ behind),
      length-append before behind,
      may_store-append before (c ∷ behind),
      may_store-append before behind,
      may_store-append (c ∷ []) behind,
      may_store-le before,
      may_store-le behind,
      may_store-le (c ∷ []),
    ),
    Fits-refuse callers total before c behind v,
  )

  pub Fits-put :
      (callers total total' : ℕ) (before : List Call) (s : Session) (behind : List Call)
      → total' ≤ total + 1
      → Fits callers total (before ++ (passed s ∷ behind))
      → Fits callers total' (before ++ behind)
  Fits-put callers total total' [] s behind h (q, v) =
      Fits-may_store callers total total' behind q v
  Fits-put callers total total' (counting x n ∷ before) s behind h (q, v) = (
    λ b.
        omega
          (arith, q b, h, length-append before (passed s ∷ behind), length-append before behind),
    Fits-put callers total total' before s behind h v,
  )
  Fits-put callers total total' (passed x ∷ before) s behind h (q, v) = (
    omega (
      arith,
      q,
      length-append before (passed s ∷ behind),
      length-append before behind,
      may_store-append before (passed s ∷ behind),
      may_store-append before behind,
    ),
    Fits-put callers total total' before s behind h v,
  )

  pub Fits-pass :
      (callers total most : ℕ) (before : List Call) (s : Session) (n : ℕ) (behind : List Call)
      → n < limit
      → IsOrdered most (before ++ (counting s n ∷ behind))
      → Fits callers total (before ++ (counting s n ∷ behind))
      → Fits callers total (before ++ (passed s ∷ behind))
  Fits-pass callers total most [] s n behind h (b, o) (q, v) = (IsOrdered-may_store n behind h o, v)
  Fits-pass callers total most (counting x m ∷ before) s n behind h (b, o) (q, v) = (
    λ c. omega (
      arith,
      q c,
      length-append before (counting s n ∷ behind),
      length-append before (passed s ∷ behind),
    ),
    Fits-pass callers total m before s n behind h o v,
  )
  Fits-pass callers total most (passed x ∷ before) s n behind h o (q, v) = (
    ground (
      arith,
      q,
      h,
      length-append before (counting s n ∷ behind),
      length-append before (passed s ∷ behind),
      may_store-append before (counting s n ∷ behind),
      may_store-append before (passed s ∷ behind),
    ),
    Fits-pass callers total most before s n behind h o v,
  )
