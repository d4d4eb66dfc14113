-- ===== src/Registry/Lifecycle/Calls.antt =====
-- Which calls InitAll, StartAll and StopAll make, and in which order.
use subnetree.Prelude.{
  ◌≤◌, ◌≡◌, refl, sym, ◌∙◌, ap, append_assoc, append-nil, reverse-cons, subst, String, Bool, true,
  false, not, List, [], ◌∷◌, ◌++◌, map, reverse, none, string_eq, if◌then◌else◌, contains, count,
  keep, arith, ◌⊎◌, inl, inr, Option-cases,
}
use subnetree.Registry.Types.{Plugin, Registry, lookup}
use subnetree.Registry.Lifecycle.{
  Event, Progress, topics, init_one, start_one, continue, run_each, init_all, start_all, stop_each,
  stop_all, active_names,
}

-- The plugins on which a list of events calls Init, Start or Stop.
abbrev pub inits : List Event → List String
inits [] = []
inits (Event.init n ∷ es) = n ∷ inits es
inits (Event.start n ∷ es) = inits es
inits (Event.stop n ∷ es) = inits es
inits (Event.subscribe n t ∷ es) = inits es

abbrev pub starts : List Event → List String
starts [] = []
starts (Event.init n ∷ es) = starts es
starts (Event.start n ∷ es) = n ∷ starts es
starts (Event.stop n ∷ es) = starts es
starts (Event.subscribe n t ∷ es) = starts es

abbrev pub stops : List Event → List String
stops [] = []
stops (Event.init n ∷ es) = stops es
stops (Event.start n ∷ es) = stops es
stops (Event.stop n ∷ es) = n ∷ stops es
stops (Event.subscribe n t ∷ es) = stops es

inits-append : (xs ys : List Event) → inits (xs ++ ys) ≡ inits xs ++ inits ys
inits-append [] ys = refl
inits-append (Event.init n ∷ es) ys = ap (λ l. n ∷ l) (inits-append es ys)
inits-append (Event.start n ∷ es) ys = inits-append es ys
inits-append (Event.stop n ∷ es) ys = inits-append es ys
inits-append (Event.subscribe n t ∷ es) ys = inits-append es ys

inits-subscribe : (name : String) (ts : List String) → inits (map (Event.subscribe name) ts) ≡ []
inits-subscribe name [] = refl
inits-subscribe name (t ∷ ts) = inits-subscribe name ts

-- Each round of InitAll calls Init on its plugin, once.
inits-init_one :
    (plugins : List Plugin) (name : String) (disabled : List String)
    → inits (init_one plugins name disabled).events ≡ name ∷ []
unfolding init_one
inits-init_one plugins name disabled =
    ground (arith, inits-subscribe name (topics (lookup name plugins)))

-- `calls` of the events, and what is left of the expected calls when an error ends the loop.
abbrev pub Follows : (List Event → List String) → Progress → List String → Type 0
Follows calls p expected =
    (rest : List String) × (calls p.events ++ rest ≡ expected) × (p.error ≡ none → rest ≡ [])

-- One round and the rounds behind it.
continue-Follows :
    (calls : List Event → List String)
    → ((xs ys : List Event) → calls (xs ++ ys) ≡ calls xs ++ calls ys)
    → (p : Progress) (next : List String → Progress) (now later : List String)
    → calls p.events ≡ now
    → (p.error ≡ none → Follows calls (next p.disabled) later)
    → Follows calls (continue p next) (now ++ later)
continue-Follows calls split p next now later h more = elim (Option-cases p.error) [
  | inr (e, h') ↦ (
    later,
    rw (h', continue) (ap (λ l. l ++ later) h),
    λ n. absurd (cc ((rw (h', continue) at n))),
  )
  | inl h' ↦
      let (rest, eq, fin) = more h' in
      (
        rest,
        rw (h', continue)
            (ap (λ l. l ++ rest) (split p.events _)
              ∙ append_assoc (calls p.events) _ rest
              ∙ cc (h, eq)),
        rw (h', continue) fin,
      )
]

run_each-inits :
    (plugins : List Plugin) (names disabled : List String)
    → Follows inits (run_each (init_one plugins) names disabled) names
unfolding run_each
run_each-inits plugins [] disabled = ([], refl, λ _. refl)
run_each-inits plugins (n ∷ ns) disabled =
    continue-Follows inits inits-append (init_one plugins n disabled)
      (run_each (init_one plugins) ns) (n ∷ []) ns (inits-init_one plugins n disabled)
      (λ _. run_each-inits plugins ns (init_one plugins n disabled).disabled)

-- InitAll calls Init on the plugins of the start order, in that order: on all of them if it
-- succeeds, and on those up to the failing one if it returns an error.
pub init_all-inits :
    (r : Registry)
    → (rest : List String) × (inits (init_all r).1 ++ rest ≡ r.order)
      × ((init_all r).2 ≡ none → rest ≡ [])
unfolding init_all
init_all-inits r = run_each-inits r.plugins r.order r.disabled

starts-append : (xs ys : List Event) → starts (xs ++ ys) ≡ starts xs ++ starts ys
starts-append [] ys = refl
starts-append (Event.init n ∷ es) ys = starts-append es ys
starts-append (Event.start n ∷ es) ys = ap (λ l. n ∷ l) (starts-append es ys)
starts-append (Event.stop n ∷ es) ys = starts-append es ys
starts-append (Event.subscribe n t ∷ es) ys = starts-append es ys

abbrev active_in : List String → List String → List String
active_in disabled names = keep (λ n. not (contains disabled n)) names

active_in-cons :
    (n : String) (disabled names : List String)
    → count n names ≡ 0
    → active_in (n ∷ disabled) names ≡ active_in disabled names
active_in-cons n disabled [] h = refl
active_in-cons n disabled (x ∷ xs) h =
    ground (arith, active_in-cons n disabled xs, string_eq.same_iff n x, string_eq.same_iff x n)

active_in-head :
    (n : String) (disabled names : List String)
    → active_in disabled (n ∷ names) ≡ active_in disabled (n ∷ []) ++ active_in disabled names
active_in-head n disabled names = ground arith

start_one_cases :
    (plugins : List Plugin) (n : String) (disabled : List String)
    → (starts (start_one plugins n disabled).events ≡ active_in disabled (n ∷ []))
      × (((start_one plugins n disabled).disabled ≡ disabled)
          ⊎ ((start_one plugins n disabled).disabled ≡ n ∷ disabled))
unfolding start_one
start_one_cases plugins n disabled = ground arith

run_each-starts :
    (plugins : List Plugin) (names disabled : List String)
    → ((x : String) → count x names ≤ 1)
    → Follows starts (run_each (start_one plugins) names disabled) (active_in disabled names)
unfolding run_each
run_each-starts plugins [] disabled once = ([], refl, λ _. refl)
run_each-starts plugins (n ∷ ns) disabled once =
    subst
      (Follows starts (continue (start_one plugins n disabled) (run_each (start_one plugins) ns)))
      (sym (active_in-head n disabled ns))
      (continue-Follows starts starts-append (start_one plugins n disabled)
        (run_each (start_one plugins) ns) (active_in disabled (n ∷ [])) (active_in disabled ns)
        (start_one_cases plugins n disabled).0
        (λ _.
          subst
            (Follows starts
              (run_each (start_one plugins) ns (start_one plugins n disabled).disabled))
            (same (start_one_cases plugins n disabled).1)
            (run_each-starts plugins ns (start_one plugins n disabled).disabled
              (λ x. omega (arith, once x)))))
  where
    same :
        {d : List String}
        → (d ≡ disabled) ⊎ (d ≡ n ∷ disabled)
        → active_in d ns ≡ active_in disabled ns
    same (inl e) = ap (λ l. active_in l ns) e
    same (inr e) =
        ap (λ l. active_in l ns) e
        ∙ active_in-cons n disabled ns (ground (arith, once n, string_eq.same_iff n n))

-- If the start order names no plugin twice, StartAll starts the active plugins in the start order and no others: all of them if it succeeds,
-- and those up to the failing one if it returns an error.
pub start_all-starts :
    (r : Registry)
    → ((x : String) → count x r.order ≤ 1)
    → (rest : List String) × (starts (start_all r).1 ++ rest ≡ active_names r)
      × ((start_all r).2 ≡ none → rest ≡ [])
unfolding start_all
start_all-starts r once = run_each-starts r.plugins r.order r.disabled once

stops-stop_each :
    (disabled names : List String) → stops (stop_each disabled names) ≡ active_in disabled names
unfolding stop_each
stops-stop_each disabled [] = refl
stops-stop_each disabled (n ∷ ns) = ground (arith, stops-stop_each disabled ns)

active_in-append :
    (disabled xs ys : List String)
    → active_in disabled (xs ++ ys) ≡ active_in disabled xs ++ active_in disabled ys
active_in-append disabled [] ys = refl
active_in-append disabled (x ∷ xs) ys = ground (arith, active_in-append disabled xs ys)

active_in-reverse :
    (disabled xs : List String) → active_in disabled (reverse xs) ≡ reverse (active_in disabled xs)
active_in-reverse disabled [] = refl
active_in-reverse disabled (x ∷ xs) =
    ap (active_in disabled) (reverse-cons x xs)
    ∙ active_in-append disabled (reverse xs) (x ∷ [])
    ∙ ap (λ l. l ++ active_in disabled (x ∷ [])) (active_in-reverse disabled xs)
    ∙ last (contains disabled x)
  where
    last :
        (b : Bool)
        → reverse (active_in disabled xs) ++ (if not b then x ∷ [] else [])
          ≡ reverse (if not b then x ∷ active_in disabled xs else active_in disabled xs)
    last true = append-nil _
    last false = sym (reverse-cons x (active_in disabled xs))

-- StopAll stops exactly the active plugins, in the reverse of the start order.
pub stop_all-stops : (r : Registry) → stops (stop_all r) ≡ reverse (active_names r)
unfolding stop_all
stop_all-stops r =
    stops-stop_each r.disabled (reverse r.order) ∙ active_in-reverse r.disabled r.order
