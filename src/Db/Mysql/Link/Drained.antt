-- ===== src/Db/Mysql/Link/Drained.antt =====
-- Turns of both threads, one after the other, bring the client to rest.
use php_flame.Prelude.{
  ℕ, zero, suc, ◌+◌, ◌≤◌, ◌≡◌, refl, sym, ap, subst, Option, List, [], ◌∷◌, Bytes, arith,
}
use php_flame.Db.Mysql.Link.{Url, Driver, Request, Link, Ran, ran}
use php_flame.Db.Mysql.Link.Client.{Client}
use php_flame.Db.Mysql.Link.Sound.{HasPath, Reports, Turn, turned}
use php_flame.Db.Mysql.Link.Turns.{work_on-Turn}
use php_flame.Db.Mysql.Link.Answered.{
  total, worked, called, Step, works, calls, Reach, AllWait, holds, frees, asked, answered, one_of,
  Kept,
}
use php_flame.Db.Mysql.Link.Kept.{Reach-Kept, Step-Kept}
use mathlib.Core.Path.{ap₂}
use php_flame.Db.Mysql.Link.Remaining.{left, call_back-Leaves, left-worked, left-called}

module _ {C R : Type 0} where
  pub data Steps (driver : Driver C R) : Client C R → Client C R → Type 0 where
    rests : {w : Client C R} → Steps driver w w
    goes : {w u v : Client C R} → Step driver w u → Steps driver u v → Steps driver w v

  -- What a client at rest after steps from `w` is like.
  abbrev Rests : Driver C R → List (Option ℕ) → Client C R → Type 0
  Rests driver cos w =
      (v : Client C R) × Steps driver w v × (v.queue ≡ []) × (v.done ≡ []) × Kept cos v

  worked_on :
      {q : Request R} {l : Link C} {r : Ran (Request R × Link C)}
      → Turn q l r
      → (p : Request R) × (m : Link C) × (r ≡ ran (p, m)) × (p.work ≡ q.work)
  worked_on (turned {p} {m} sound ends same co b) = (p, m, refl, same)

  -- The next turn, or none.
  data Next (driver : Driver C R) (w : Client C R) : Type 0 where
    at_rest : w.queue ≡ [] → w.done ≡ [] → Next driver w
    turn :
        {v : Client C R} → Step driver w v → HasPath v.url → suc (left v) ≤ left w → Next driver w

  module _ (driver : Driver C R) (reports : Reports driver) (cos : List (Option ℕ)) where
    next : (w : Client C R) → Kept cos w → HasPath w.url → Next driver w
    next w k p = by w.queue w.done refl refl
      where
        by : (queue done : List (Request R)) → w.queue ≡ queue → w.done ≡ done → Next driver w
        by [] [] e f = at_rest e f
        by (q ∷ rest) done e f =
            let (x, l, defined, same) =
              worked_on
                (work_on-Turn driver reports q w.link p k.sound (subst AllWait e k.waits).0) in
            turn (works e defined) (unfold worked in p) (omega (arith, left-worked x l w e same))
        by [] (q ∷ rest) e f =
            let leaves = call_back-Leaves q.work q (record w { done = rest }) in
            turn (calls f) (unfold called in subst HasPath (sym leaves.same_url) p)
              (left-called w f)

    drain : (n : ℕ) (w : Client C R) → Kept cos w → HasPath w.url → left w ≤ n → Rests driver cos w
    drain zero w k p enough = elim (next w k p) [
      | at_rest e f ↦ (w, rests, e, f, k)
      | turn step q fewer ↦ absurd (omega arith)
    ]
    drain (suc n) w k p enough = elim (next w k p) [
      | at_rest e f ↦ (w, rests, e, f, k)
      | turn {v} step q fewer ↦
          let (u, steps, e, f, kept) = drain n v (Step-Kept reports step k) q (omega arith) in
          (u, goes step steps, e, f, kept)
    ]

  -- From every state that calls and turns reach, turns alone lead to one in which neither
  -- thread has a request left, every coroutine was resumed exactly as often as it asked, and the
  -- results of the database that are not freed are those of the result sets. The library reports its
  -- errors, and `url_` has a path or is missing.
  pub Reach-drains :
      {driver : Driver C R} {parse_url : Bytes → Option Url} {cos : List (Option ℕ)}
      {w : Client C R}
      → Reports driver
      → Reach driver parse_url cos w
      → HasPath w.url
      → (v : Client C R) × Steps driver w v
        × (v.queue ≡ [])
        × (v.done ≡ [])
        × ((f : Option ℕ → ℕ) → total f cos ≡ total (answered f) v.resumed)
        × (v.link.stored ≡ v.link.freed + total one_of v.sets)
  unfolding total
  Reach-drains {driver} {parse_url} {cos} {w} reports reach p =
      let (v, steps, e, f, k) =
        drain driver reports cos (left w) w (Reach-Kept reports reach) p (omega arith) in
      let none_held : total frees v.queue + total holds v.done ≡ 0 =
        ap₂ ◌+◌ (ap (total frees) e) (ap (total holds) f) in
      (
        v,
        steps,
        e,
        f,
        (λ g.
            let none_waits : total (asked g) v.queue + total (asked g) v.done ≡ 0 =
              ap₂ ◌+◌ (ap (total (asked g)) e) (ap (total (asked g)) f) in
            omega (arith, k.answers g, none_waits)),
        omega (arith, k.balance, none_held),
      )
