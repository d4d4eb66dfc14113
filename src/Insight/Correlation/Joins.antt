-- ===== src/Insight/Correlation/Joins.antt =====
-- The loops over the pairs of alerts in `Correlate` of
-- internal/insight/correlation/correlator.go, and the relation that they build up.
use subnetree.Prelude.{
  ℕ, suc, ◌≤◌, ◌<◌, String, Bool, false, Bool-cases, ◌≡◌, refl, sym, ◌∙◌, Option, some, ◌==◌,
  string_eq, update, inl, inr, arith, ==_cases,
}
use text.Mathlib.TextEquality.{eq_iff}
use subnetree.Insight.Correlation.{Parents, climbs, link_roots, union, ◌>>=◌}
use subnetree.Insight.Correlation.Forest.{
  IsForest, find-Found, rep-kept, set-ne-empty, hung_below, deepen, link-IsForest,
}

-- The least equivalence relation above `R`.
pub data Joined (R : String → String → Type 0) : String → String → Type 0 where
  link : {x y : String} → R x y → Joined R x y
  same : {x : String} → Joined R x x
  flip : {x y : String} → Joined R x y → Joined R y x
  trans : {x y z : String} → Joined R x y → Joined R y z → Joined R x z

-- What agrees on each link agrees on all that is joined.
pub Joined-agree :
    {R : String → String → Type 0} (rep : String → String)
    → ((x y : String) → R x y → rep x ≡ rep y)
    → {x y : String} → Joined R x y
    → rep x ≡ rep y
Joined-agree rep h {x} {y} (link r) = h x y r
Joined-agree rep h same = refl
Joined-agree rep h (flip j) = sym (Joined-agree rep h j)
Joined-agree rep h (trans j k) = Joined-agree rep h j ∙ Joined-agree rep h k

abbrev pub Coarser : (String → String) → (String → String) → Type 0
Coarser rep rep' = (x y : String) → rep x ≡ rep y → rep' x ≡ rep' y

module _ (R : String → String → Type 0) (unset : String → Bool) where
  -- The parents after at most `k` unions of devices that `R` relates.
  pub record Partition (k : ℕ) (parent : Parents) (rep : String → String) : Type 0 where
    pub depth : String → ℕ
    pub forest : IsForest parent rep depth
    pub shallow : (x : String) → depth x ≤ k
    pub domain : (x : String) → (parent x == "") ≡ unset x
    pub sound : (x y : String) → rep x ≡ rep y → Joined R x y

  hung_below_sound :
      (rep : String → String) (a b : String)
      → ((x y : String) → rep x ≡ rep y → Joined R x y)
      → R a b
      → (x y : String) → hung_below rep (rep a) (rep b) x ≡ hung_below rep (rep a) (rep b) y
      → Joined R x y
  hung_below_sound rep a b sound r x y h = elim (==_cases (rep x) (rep a)) [
    | inl (e, p) ↦ elim (==_cases (rep y) (rep a)) [
      | inl (e', p') ↦ sound x y (p ∙ sym p')
      | inr (e', p') ↦ trans (sound x a p) (trans (link r) (sound b y (ground (arith, h))))
    ]
    | inr (e, p) ↦ elim (==_cases (rep y) (rep a)) [
      | inl (e', p') ↦ flip (trans (sound y a p') (trans (link r) (sound b x (ground (arith, h)))))
      | inr (e', p') ↦ sound x y (ground (arith, h))
    ]
  ]

  -- What a step of the loops leads to, with at most `k` unions made so far, and `P` of the new roots.
  pub record Joins (k : ℕ) (rep : String → String) (result : Option Parents)
      (P : (String → String) → Type 0) : Type 0 where
    pub next : Parents
    pub rep' : String → String
    pub runs : result ≡ some next
    pub partition : Partition k next rep'
    pub coarser : Coarser rep rep'
    pub holds : P rep'

  module _ (k : ℕ) (rep : String → String) (a b : String) where
    -- The two trees, when both roots are found.
    link-Joins :
        (next : Parents) (depth : String → ℕ)
        → IsForest next rep depth
        → ((x : String) → depth x ≤ k)
        → ((x : String) → (next x == "") ≡ unset x)
        → ((x y : String) → rep x ≡ rep y → Joined R x y)
        → climbs next (rep a) ≡ false
        → climbs next (rep b) ≡ false
        → unset a ≡ false
        → unset b ≡ false
        → R a b
        → Joins (suc k) rep (some (link_roots (rep a) (rep b) next)) (λ rep'. rep' a ≡ rep' b)
    unfolding link_roots
    link-Joins next depth forest shallow domain sound left right set_a set_b r =
        elim (Bool-cases (rep a == rep b)) [
          | inl e ↦ record {
            next = next;
            rep' = rep;
            runs = rw e;
            partition = record {
              depth = depth;
              forest = forest;
              shallow = λ x. omega (arith, shallow x);
              domain = domain;
              sound = sound;
            };
            coarser = λ x y h. h;
            holds = ground (arith, eq_iff (rep a) (rep b));
          }
          | inr e ↦
              let root_a =
                rep-kept (suc k) a forest (omega (arith, shallow a)) (domain a ∙ set_a) in
              let root_b =
                rep-kept (suc k) b forest (omega (arith, shallow b)) (domain b ∙ set_b) in
              record {
                next = update next (rep a) (rep b);
                rep' = hung_below rep (rep a) (rep b);
                runs = rw e;
                partition = record {
                  depth = deepen rep (rep a) depth;
                  forest =
                      link-IsForest next rep depth forest (rep a) (rep b) e left right root_a
                        root_b;
                  shallow = λ x. ground (arith, shallow x);
                  domain = λ x. ground (
                    arith,
                    domain x,
                    domain (rep a),
                    root_a,
                    set-ne-empty (rep b) forest root_b,
                    eq_iff (rep a) x,
                  );
                  sound = hung_below_sound rep a b sound r;
                };
                coarser = λ x y h. rw h;
                holds = ground (arith, eq_iff (rep a) (rep a));
              }
        ]

    pub union-Joins :
        (fuel : ℕ) (parent : Parents)
        → Partition k parent rep
        → k < fuel
        → unset a ≡ false
        → unset b ≡ false
        → R a b
        → Joins (suc k) rep (union fuel a b parent) (λ rep'. rep' a ≡ rep' b)
    unfolding union
    union-Joins fuel parent p h set_a set_b r =
        let fa = find-Found fuel a parent rep p.depth p.forest (omega (arith, p.shallow a)) in
        let fb = find-Found fuel b fa.next rep p.depth fa.forest (omega (arith, p.shallow b)) in
        let left : climbs fb.next (rep a) ≡ false = elim (Bool-cases (climbs fb.next (rep a))) [
          | inl more ↦
              absurd
                (omega (arith, (fb.forest.climb (rep a) more).0, (fa.forest.top (rep a) fa.root).1))
          | inr last ↦ last
        ] in
        rw (fa.runs, fb.runs)
          (link-Joins fb.next p.depth fb.forest p.shallow
            (λ x. fb.domain x ∙ fa.domain x ∙ p.domain x) p.sound left fb.root set_a set_b r)

  pub Partition-le :
      (k k' : ℕ) (parent : Parents) (rep : String → String)
      → k ≤ k'
      → Partition k parent rep
      → Partition k' parent rep
  Partition-le k k' parent rep le p = record {
    depth = p.depth;
    forest = p.forest;
    shallow = λ x. omega (arith, p.shallow x);
    domain = p.domain;
    sound = p.sound;
  }

  -- A second step after a first one.
  pub Joins-trans :
      (k n : ℕ) (rep : String → String) (result : Option Parents) (rest : Parents → Option Parents)
      {P Q S : (String → String) → Type 0}
      → (first : Joins k rep result P) → Joins n first.rep' (rest first.next) Q
      → ((rep' : String → String) → Coarser first.rep' rep' → Q rep' → S rep')
      → Joins n rep (result >>= rest) S
  Joins-trans k n rep result rest first second combine = record {
    next = second.next;
    rep' = second.rep';
    runs = rw first.runs second.runs;
    partition = second.partition;
    coarser = λ x y h. second.coarser x y (first.coarser x y h);
    holds = combine second.rep' second.coarser second.holds;
  }
