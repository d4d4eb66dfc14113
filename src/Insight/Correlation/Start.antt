-- ===== src/Insight/Correlation/Start.antt =====
-- The links and the first parents: the first two loops of `Correlate` in
-- internal/insight/correlation/correlator.go.
use subnetree.Prelude.{
  String, true, false, ◌&&◌, ◌||◌, ◌≡◌, refl, sym, ap, ◌∙◌, subst, ◌⊎◌, inl, inr, ◌↔◌, ◌≢◌, List,
  [], ◌∷◌, ◌==◌, ==_cases, string_eq, arith,
}
use text.Mathlib.TextEquality.{eq_iff}
use mathlib.Core.List.{Memᴰ}
use mathlib.Core.List.Memᴰ
use subnetree.Insight.Correlation.{
  Alert, TopologyEdge, Links, Parents, climbs, adjacency, add_link, init_parents,
}
use subnetree.Insight.Correlation.Forest.{IsForest}

-- An edge joins the two devices, in either direction.
abbrev pub HasEdge : List TopologyEdge → String → String → Type 0
HasEdge topology d e =
    (edge : TopologyEdge) × Memᴰ edge topology
    × (((edge.source_id ≡ d) × (edge.target_id ≡ e))
        ⊎ ((edge.source_id ≡ e) × (edge.target_id ≡ d)))

HasEdge-tail :
    (t : TopologyEdge) (ts : List TopologyEdge) (d e : String)
    → HasEdge ts d e
    → HasEdge (t ∷ ts) d e
HasEdge-tail t ts d e (edge, m, ends) = (edge, Memᴰ.tail m, ends)

add_link-eq :
    (s t : String) (adj : Links) (d e : String)
    → add_link s t adj d e ≡ (adj d e || (s == d && t == e))
unfolding add_link
add_link-eq s t adj d e = elim (==_cases s d) [
  | inl (q, p) ↦ rw (q, p) (ground (arith, eq_iff t e))
  | inr (q, p) ↦ rw q (ground arith)
]

add_both_iff :
    (t : TopologyEdge) (adj : Links) (d e : String)
    → (add_link t.target_id t.source_id (add_link t.source_id t.target_id adj) d e ≡ true) ↔ (
        (adj d e ≡ true)
        ⊎ (((t.source_id ≡ d) × (t.target_id ≡ e)) ⊎ ((t.source_id ≡ e) × (t.target_id ≡ d))))
add_both_iff t adj d e =
    let first = add_link-eq t.source_id t.target_id adj d e in
    let both = add_link-eq t.target_id t.source_id (add_link t.source_id t.target_id adj) d e in
    (
      λ h. ground (
        arith,
        first,
        both,
        h,
        eq_iff t.source_id d,
        eq_iff t.target_id e,
        eq_iff t.source_id e,
        eq_iff t.target_id d,
      ),
      λ s. ground (
        arith,
        first,
        both,
        s,
        eq_iff t.source_id d,
        eq_iff t.target_id e,
        eq_iff t.source_id e,
        eq_iff t.target_id d,
      ),
    )

pub adjacency_iff :
    (topology : List TopologyEdge) (adj : Links) (d e : String)
    → (adjacency topology adj d e ≡ true) ↔ ((adj d e ≡ true) ⊎ HasEdge topology d e)
unfolding adjacency
adjacency_iff [] adj d e =
    (inl, λ s. elim s [ inl h ↦ h | inr (edge, m, ends) ↦ absurd (Memᴰ.not-nil m) ])
adjacency_iff (t ∷ ts) adj d e =
    let both = add_both_iff t adj d e in
    let rest =
      adjacency_iff ts (add_link t.target_id t.source_id (add_link t.source_id t.target_id adj)) d
        e in
    (
      λ h. elim (rest.0 h) [
        | inl now ↦ elim (both.0 now) [
          | inl old ↦ inl old
          | inr ends ↦ inr (t, Memᴰ.head refl, ends)
        ]
        | inr edge ↦ inr (HasEdge-tail t ts d e edge)
      ],
      λ s. elim s [
        | inl old ↦ rest.1 (inl (both.1 (inl old)))
        | inr (edge, m, ends) ↦ elim (Memᴰ.cases_cons m) [
          | inl q ↦ rest.1 (
              inl (
                both.1 (
                  inr (
                    subst
                      (λ (r : TopologyEdge).
                        ((r.source_id ≡ d) × (r.target_id ≡ e))
                        ⊎ ((r.source_id ≡ e) × (r.target_id ≡ d)))
                      q ends))))
          | inr m' ↦ rest.1 (inr (edge, m', ends))
        ]
      ],
    )

-- The parents before the first union: a device is its own, or has none.
pub record IsInitial (parent : Parents) : Type 0 where
  pub empty : parent "" ≡ ""
  pub roots : (x : String) → climbs parent x ≡ false

pub init_parents-IsInitial :
    (alerts : List Alert) (parent : Parents)
    → IsInitial parent
    → IsInitial (init_parents alerts parent)
unfolding init_parents
init_parents-IsInitial [] parent h = h
init_parents-IsInitial (a ∷ xs) parent h = init_parents-IsInitial xs _ (record {
  empty = ground (arith, h.empty, eq_iff a.device_id "");
  roots = λ x. ground (arith, h.roots x, eq_iff a.device_id x, eq_iff x a.device_id);
})

pub init_parents-set :
    (alerts : List Alert) (parent : Parents)
    → ((a : Alert) → Memᴰ a alerts → a.device_id ≢ "")
    → (x : String) → ((parent x == "") ≡ false) ⊎ ((a : Alert) × Memᴰ a alerts × (a.device_id ≡ x))
    → (init_parents alerts parent x == "") ≡ false
unfolding init_parents
init_parents-set [] parent h x s = elim s [ inl e ↦ e | inr (a, m, p) ↦ absurd (Memᴰ.not-nil m) ]
init_parents-set (a ∷ xs) parent h x s =
    init_parents-set xs _ (λ b m. h b (Memᴰ.tail m)) x
      (elim s [
        | inl e ↦ inl (ground (arith, e, h a (Memᴰ.head refl), eq_iff a.device_id ""))
        | inr (b, m, p) ↦ elim (Memᴰ.cases_cons m) [
          | inl q ↦ inl (
              ground (
                arith,
                h a (Memᴰ.head refl),
                eq_iff a.device_id "",
                ap (λ (r : Alert). r.device_id) q,
                p,
                eq_iff a.device_id x,
                ap parent (ap (λ (r : Alert). r.device_id) (sym q) ∙ p),
              ))
          | inr m' ↦ inr (b, m', p)
        ]
      ])

pub empty-IsInitial : IsInitial (λ x. "")
empty-IsInitial = record { empty = refl; roots = λ x. ground arith }

-- At first each device is its own root.
pub IsInitial-IsForest : (parent : Parents) → IsInitial parent → IsForest parent (λ x. x) (λ x. 0)
IsInitial-IsForest parent h = record {
  empty = h.empty;
  climb = λ x more. ground (arith, h.roots x);
  top = λ x last. (refl, refl);
  kept = λ x k. ground (arith, h.roots x, eq_iff (parent x) x);
}
