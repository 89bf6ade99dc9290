-- ===== src/Net/Client/Running.antt =====
-- The requests that src/flame/net/http/client.cpp runs: `exec2`, and `curl_multi_info_check` on a
-- request that libcurl has done. Requests and coroutines stand by numbers.
use php_flame.Prelude.{
  ℕ, ◌≡◌, ◌≢◌, refl, ap, ◌∙◌, List, [], ◌∷◌, ◌++◌, Outcome, returns, throws, ◌==◌, if◌then◌else◌,
  Bool-cases, inl, inr, ==_iff,
}

-- `easy_`, with the coroutine of CURLOPT_PRIVATE while it runs; null where the request was closed.
pub data Easy : Type 0 where
  fresh : Easy
  running : ℕ → Easy
  closed : Easy

-- A response with its status, or the number of an error.
pub data Result : Type 0 where
  response : ℕ → Result
  error : ℕ → Result

pub record Client : Type 0 where
  pub easies : ℕ → Easy
  pub resumed : List (ℕ × Result)

unfoldable pub set : ℕ → Easy → (ℕ → Easy) → ℕ → Easy
set r e easies s = if s == r then e else easies s

-- `built` is how `build` ended, which throws where the URL is empty; what it sets on the handle, and
-- appends again to the headers of one that runs already, is not of this state. Such a handle is not
-- added again, but its private pointer is set.
unfoldable pub exec_on : Easy → Outcome (Unit {0}) → ℕ → ℕ → Client → Client × Outcome (Unit {0})
exec_on closed built co r w = (w, throws "request object can NOT be reused")
exec_on _ (throws e) co r w = (w, throws e)
exec_on _ (returns _) co r w = (record w { easies = set r (running co) w.easies }, returns tt)

unfoldable pub exec2 : Outcome (Unit {0}) → ℕ → ℕ → Client → Client × Outcome (Unit {0})
exec2 built co r w = exec_on (w.easies r) built co r w

-- A message of libcurl is about a request that runs.
unfoldable pub done_on : Easy → ℕ → Result → Client → Client
done_on (running co) r result w = record {
  easies = set r closed w.easies;
  resumed = w.resumed ++ (co, result) ∷ [];
}
done_on _ r result w = w

unfoldable pub curl_multi_info_check : ℕ → Result → Client → Client
curl_multi_info_check r result w = done_on (w.easies r) r result w

-- Calls and messages on any requests.
pub data Event : Type 0 where
  executes : Outcome (Unit {0}) → ℕ → ℕ → Event
  ends : ℕ → Result → Event

unfoldable pub event : Event → Client → Client
event (executes built co r) w = (exec2 built co r w).0
event (ends r result) w = curl_multi_info_check r result w

unfoldable pub events : List Event → Client → Client
events [] w = w
events (e ∷ more) w = events more (event e w)

unfoldable pub request_of : Event → ℕ
request_of (executes built co r) = r
request_of (ends r result) = r

abbrev pub Others : ℕ → List Event → Type 0
Others r [] = Unit {0}
Others r (e ∷ more) = (r ≢ request_of e) × Others r more

set_other : (r s : ℕ) (e : Easy) (easies : ℕ → Easy) → r ≢ s → set s e easies r ≡ easies r
unfolding set
set_other r s e easies h = elim (Bool-cases (r == s)) [
  | inl f ↦ absurd (h ((==_iff r s).0 f))
  | inr f ↦ rw f refl
]

exec_on-other :
    (easy : Easy) (built : Outcome (Unit {0})) (co r s : ℕ) (w : Client)
    → r ≢ s
    → (exec_on easy built co s w).0.easies r ≡ w.easies r
unfolding exec_on
exec_on-other fresh (returns u) co r s w h = set_other r s (running co) w.easies h
exec_on-other fresh (throws e) co r s w h = refl
exec_on-other (running c) (returns u) co r s w h = set_other r s (running co) w.easies h
exec_on-other (running c) (throws e) co r s w h = refl
exec_on-other closed built co r s w h = refl

done_on-other :
    (easy : Easy) (r s : ℕ) (result : Result) (w : Client)
    → r ≢ s
    → (done_on easy s result w).easies r ≡ w.easies r
unfolding done_on
done_on-other fresh r s result w h = refl
done_on-other (running co) r s result w h = set_other r s closed w.easies h
done_on-other closed r s result w h = refl

events-Others :
    (es : List Event) (r : ℕ) (w : Client) → Others r es → (events es w).easies r ≡ w.easies r
unfolding events event exec2 curl_multi_info_check request_of
events-Others [] r w h = refl
events-Others (executes built co s ∷ es) r w h =
    events-Others es r (event (executes built co s) w) h.1
    ∙ exec_on-other (w.easies s) built co r s w h.0
events-Others (ends s result ∷ es) r w h =
    events-Others es r (event (ends s result) w) h.1 ∙ done_on-other (w.easies s) r s result w h.0

set_self : (r : ℕ) (e : Easy) (easies : ℕ → Easy) → set r e easies r ≡ e
unfolding set
set_self r e easies = rw ((==_iff r r).1 refl) refl

exec2-runs :
    (co r : ℕ) (w : Client)
    → w.easies r ≢ closed
    → exec2 (returns tt) co r w ≡ (record w { easies = set r (running co) w.easies }, returns tt)
unfolding exec2
exec2-runs co r w h = by (w.easies r) h
  where
    by :
        (easy : Easy)
        → easy ≢ closed
        → exec_on easy (returns tt) co r w
          ≡ (record w { easies = set r (running co) w.easies }, returns tt)
    by fresh h = unfold exec_on in refl
    by (running c) h = unfold exec_on in refl
    by closed h = absurd (h refl)

done-runs :
    (co r : ℕ) (result : Result) (v : Client)
    → v.easies r ≡ running co
    → curl_multi_info_check r result v
      ≡ record { easies = set r closed v.easies; resumed = v.resumed ++ (co, result) ∷ [] }
unfolding curl_multi_info_check done_on
done-runs co r result v e = ap (λ easy. done_on easy r result v) e

exec2-closed :
    (built : Outcome (Unit {0})) (co r : ℕ) (u : Client)
    → u.easies r ≡ closed
    → exec2 built co r u ≡ (u, throws "request object can NOT be reused")
unfolding exec2 exec_on
exec2-closed built co r u e = ap (λ easy. exec_on easy built co r u) e

-- A request that is executed runs until libcurl is done with it, whatever happens to other requests: then its
-- coroutine is resumed, once, with the result, and the request cannot be executed again. The
-- request was not closed.
pub exec2-answered :
    (co r : ℕ) (es : List Event) (result : Result) (later : ℕ) (w : Client)
    → w.easies r ≢ closed
    → Others r es
    → let v = events es (exec2 (returns tt) co r w).0 in
      let u = curl_multi_info_check r result v in
      (u.resumed ≡ v.resumed ++ (co, result) ∷ [])
      × (exec2 (returns tt) later r u ≡ (u, throws "request object can NOT be reused"))
exec2-answered co r es result later w h others =
    let v = events es (exec2 (returns tt) co r w).0 in
    let runs : v.easies r ≡ running co =
      events-Others es r (exec2 (returns tt) co r w).0 others
      ∙ ap (λ x. x.0.easies r) (exec2-runs co r w h)
      ∙ set_self r (running co) w.easies in
    let ended = done-runs co r result v runs in
    (
      ap (λ u. u.resumed) ended,
      exec2-closed (returns tt) later r (curl_multi_info_check r result v)
          (ap (λ u. u.easies r) ended ∙ set_self r closed v.easies),
    )
