-- ===== src/Gateway/Sessions/Races/Limit.antt =====
-- By how many sessions the table exceeds the limit.
use subnetree.Prelude.{
  ℕ, ◌+◌, ◌≤◌, ◌<◌, ◌≡◌, refl, String, not, List, [], ◌∷◌, ◌++◌, map, ◌==◌, string_eq, length, keep,
  ltb, length-keep-le, Bool-cases, inl, inr, arith,
}
use subnetree.Gateway.Sessions.{Session, store, session_count, delete}
use subnetree.Gateway.Sessions.Table.{length-store-le}
use subnetree.Gateway.Sessions.Races.{
  Call, counting, passed, Running, staying, after_delete, Step, begin, pass, refuse, put, drop,
  Reachable, start, next,
}
use subnetree.Gateway.Sessions.Races.Calls.{
  may_store, IsOrdered, IsOrdered-le, IsOrdered-remove, IsOrdered-pass, staying-all, IsOrdered-map,
  may_store-le, may_store-append, IsOrdered-may_store, Fits, Fits-refuse, Fits-put, Fits-pass,
}

module _ (limit callers : ℕ) (id : String) (ss : List Session) where
  length-calls : (cs : List Call) → length (map (after_delete id ss) cs) ≡ length cs
  length-calls [] = refl
  length-calls (c ∷ cs) = omega (arith, length-calls cs)

  -- The calls that may store after a deletion were there before it, or find room.
  delete-room :
      (most : ℕ) (cs : List Call)
      → most ≤ length ss
      → length ss + may_store limit cs < limit + callers
      → IsOrdered most cs
      → Fits limit callers (length ss) cs
      → length (keep (λ s. not (s.id == id)) ss) + may_store limit (map (after_delete id ss) cs)
        < limit + callers
  delete-room most [] low few o v = omega (arith, few, length-keep-le (λ s. not (s.id == id)) ss)
  delete-room most (counting s n ∷ cs) low few (b, o) (q, v) =
      let rest = delete-room n cs (omega (arith, low, b)) in
      let stay = staying-all id ss n (omega (arith, low, b)) in
      let store = may_store-le limit (map (after_delete id ss) cs) in
      let same = length-calls cs in
      elim (Bool-cases (ltb n limit)) [
        | inl t ↦
            let all = IsOrdered-may_store limit n cs (ground (arith, t)) o in
            ground
              (arith, t, all, few, stay, store, same, length-keep-le (λ s. not (s.id == id)) ss)
        | inr f ↦ elim (Bool-cases (ltb (staying id n ss) limit)) [
          | inl t ↦ ground (arith, f, t, q, stay, store, same)
          | inr g ↦ ground (arith, f, g, rest (ground (arith, f, few)) o v)
        ]
      ]
  delete-room most (passed s ∷ cs) low few o (q, v) = omega (
    arith,
    q,
    few,
    may_store-le limit (map (after_delete id ss) cs),
    length-calls cs,
    length-keep-le (λ s. not (s.id == id)) ss,
  )

  may_store-delete :
      (cs : List Call)
      → (most : ℕ) → most ≤ length ss
      → IsOrdered most cs
      → may_store limit cs ≡ length cs
      → may_store limit (map (after_delete id ss) cs) ≡ length cs
  may_store-delete [] most low o h = refl
  may_store-delete (counting s n ∷ cs) most low (b, o) h =
      let few = may_store-le limit cs in
      let rest = may_store-delete cs n (omega (arith, low, b)) o in
      let stay = staying-all id ss n (omega (arith, low, b)) in ground (arith, few, rest, stay, h)
  may_store-delete (passed s ∷ cs) most low o h =
      omega (arith, h, may_store-delete cs most low o (omega (arith, h)))

  Fits-delete :
      (most : ℕ) (cs : List Call)
      → most ≤ length ss
      → IsOrdered most cs
      → Fits limit callers (length ss) cs
      → Fits limit callers (length (keep (λ s. not (s.id == id)) ss)) (map (after_delete id ss) cs)
  Fits-delete most [] low o v = tt
  Fits-delete most (counting s n ∷ cs) low (b, o) (q, v) =
      let stay = staying-all id ss n (omega (arith, low, b)) in
      (
        λ c. omega (arith, q (omega (arith, c, stay)), stay, length-calls cs),
        Fits-delete n cs (omega (arith, low, b)) o v,
      )
  Fits-delete most (passed s ∷ cs) low o (q, v) = (
    omega (arith, may_store-delete cs most low o q, length-calls cs),
    Fits-delete most cs low o v,
  )

record Within (limit callers : ℕ) (r : Running) : Type 0 where
  limited : r.manager.max_sessions ≡ limit
  few : session_count r.manager + may_store limit r.calls < limit + callers
  ordered : IsOrdered (session_count r.manager) r.calls
  fits : Fits limit callers (session_count r.manager) r.calls

length-store-ge : (s : Session) (ss : List Session) → length ss ≤ length (store s ss)
unfolding store
length-store-ge s [] = omega arith
length-store-ge s (t ∷ ts) = ground (arith, length-store-ge s ts)

Step-Within :
    {limit callers : ℕ} {r r' : Running}
    → Step callers r r'
    → Within limit callers r
    → Within limit callers r'
unfolding delete
Step-Within {limit = limit} (begin {r = r} s free) w = record {
  limited = w.limited;
  few = ground (arith, w.few, free, may_store-le limit r.calls);
  ordered = (omega arith, w.ordered);
  fits = (λ b. omega (arith, free), w.fits);
}
Step-Within {limit = limit} {callers = callers} (pass {sm = sm} s n count before behind low below)
      w =
    let under : n < limit = omega (arith, low, below, w.limited) in
    record {
      limited = w.limited;
      few = ground (
        arith,
        under,
        w.few,
        may_store-append limit before (counting s n ∷ behind),
        may_store-append limit before (passed s ∷ behind),
      );
      ordered = IsOrdered-pass (length sm.sessions) before s n behind w.ordered;
      fits =
          Fits-pass limit callers (length sm.sessions) (length sm.sessions) before s n behind under
            w.ordered w.fits;
    }
Step-Within {limit = limit} {callers = callers} (refuse {sm = sm} s n count before behind low full)
      w =
    record {
      limited = w.limited;
      few = ground (
        arith,
        w.few,
        may_store-append limit before (counting s n ∷ behind),
        may_store-append limit before behind,
      );
      ordered = IsOrdered-remove (length sm.sessions) before (counting s n) behind w.ordered;
      fits = Fits-refuse limit callers (length sm.sessions) before (counting s n) behind w.fits;
    }
Step-Within {limit = limit} {callers = callers} (put {sm = sm} s before behind) w =
    let more = length-store-le s sm.sessions in
    record {
      limited = w.limited;
      few = ground (
        arith,
        w.few,
        more,
        may_store-append limit before (passed s ∷ behind),
        may_store-append limit before behind,
      );
      ordered =
          IsOrdered-le (length sm.sessions) (length (store s sm.sessions)) (before ++ behind)
            (length-store-ge s sm.sessions)
            (IsOrdered-remove (length sm.sessions) before (passed s) behind w.ordered);
      fits =
          Fits-put limit callers (length sm.sessions) (length (store s sm.sessions)) before s behind
            more w.fits;
    }
Step-Within {limit = limit} {callers = callers} (drop {r = r} id) w =
    let ss = r.manager.sessions in
    let most = length ss in
    record {
      limited = w.limited;
      few = delete-room limit callers id ss most r.calls (omega arith) w.few w.ordered w.fits;
      ordered =
          IsOrdered-le (staying id most ss) (length (keep (λ s. not (s.id == id)) ss))
            (map (after_delete id ss) r.calls) (staying-all id ss most (omega arith)).1
            (IsOrdered-map id ss most r.calls w.ordered);
      fits = Fits-delete limit callers id ss most r.calls (omega arith) w.ordered w.fits;
    }

Reachable-Within :
    {limit callers : ℕ} {r : Running}
    → 0 < callers
    → Reachable limit callers r
    → Within limit callers r
Reachable-Within some_caller start = record {
  limited = refl;
  few = omega (arith, some_caller);
  ordered = tt;
  fits = tt;
}
Reachable-Within some_caller (next h s) = Step-Within s (Reachable-Within some_caller h)

-- However the steps of the calls interleave, those of a Range included, with at least one caller allowed:
-- the sessions exceed the limit by fewer than the calls of Create that may be under way at once, so one
-- caller at a time stays within it.
pub Reachable-session_count :
    (limit callers : ℕ) (r : Running)
    → 0 < callers
    → Reachable limit callers r
    → session_count r.manager < limit + callers
Reachable-session_count limit callers r some_caller h =
    omega (arith, (Reachable-Within some_caller h).few)
