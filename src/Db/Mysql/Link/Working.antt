-- ===== src/Db/Mysql/Link/Working.antt =====
-- Requests that wait, and the work on them: what holds in every state of the client.
use php_flame.Prelude.{ℕ, ◌+◌, ◌≡◌, ap, subst, ◌∙◌, Option, List, [], ◌∷◌, ◌++◌, arith}
use php_flame.Db.Mysql.Link.{Left, null, number, Work, ping_work, Request, Link, ran}
use php_flame.Db.Mysql.Link.Client.{Client, asks, drops_set, request}
use php_flame.Db.Mysql.Link.Sound.{Waits, to_ping, to_free, Ends, frees_in, Turn, turned}
use php_flame.Db.Mysql.Link.Answered.{
  total, total-append, asked_in, worked, AllWait, AllEnd, holds, frees, asked, one_of, Kept,
}

module _ {R : Type 0} where
  pub AllWait-append :
      (queue : List (Request R)) (q : Request R)
      → AllWait queue
      → Waits q.work q.rv q.sql q.code
      → AllWait (queue ++ q ∷ [])
  AllWait-append [] q h k = (k, tt)
  AllWait-append (p ∷ queue) q h k = (h.0, AllWait-append queue q h.1 k)

  AllEnd-append :
      (done : List (Request R)) (q : Request R)
      → AllEnd done
      → Ends q.work q.rv q.code
      → AllEnd (done ++ q ∷ [])
  AllEnd-append [] q h k = (k, tt)
  AllEnd-append (p ∷ done) q h k = (h.0, AllEnd-append done q h.1 k)

pub total-last {ℓ} :
    {A : Type ℓ} (f : A → ℕ) (xs : List A) (y : A) → total f (xs ++ y ∷ []) ≡ total f xs + f y
unfolding total
total-last f xs y = rw (total-append f xs (y ∷ [])) (omega arith)

module _ {C R : Type 0} where
  pub asks-Kept :
      {cos : List (Option ℕ)} {work : Work} (co : Option ℕ) {sql : Left R} (w : Client C R)
      → ((n : ℕ) → asked_in work n ≡ n)
      → frees_in work ≡ 0
      → Waits work null sql (number 0)
      → Kept cos w
      → Kept (co ∷ cos) (asks work co sql w)
  unfolding asks request total
  asks-Kept co w e g waits k = record {
    sound = k.sound;
    waits = AllWait-append w.queue _ k.waits waits;
    ends = k.ends;
    balance = rw (total-last frees w.queue _, g) (omega (arith, k.balance));
    answers = λ f. rw (total-last (asked f) w.queue _, e (f co)) (omega (arith, k.answers f));
  }

  pub pings-Kept :
      {cos : List (Option ℕ)} (co : Option ℕ) (w : Client C R)
      → Kept cos w
      → Kept cos (asks ping_work co null w)
  unfolding asks request frees_in asked_in
  pings-Kept co w k = record {
    sound = k.sound;
    waits = AllWait-append w.queue _ k.waits to_ping;
    ends = k.ends;
    balance = rw (total-last frees w.queue _) (omega (arith, k.balance));
    answers = λ f. rw (total-last (asked f) w.queue _) (omega (arith, k.answers f));
  }

  pub drops-Kept :
      {cos : List (Option ℕ)} (before after : List R) (r : R) (w : Client C R)
      → w.sets ≡ before ++ r ∷ after
      → Kept cos w
      → Kept cos (drops_set r (before ++ after) w)
  unfolding drops_set request frees_in asked_in total
  drops-Kept before after r w e k =
      let split : total one_of w.sets ≡ total one_of before + (1 + total one_of after) =
        ap (total one_of) e ∙ total-append one_of before (r ∷ after) in
      record {
        sound = k.sound;
        waits = AllWait-append w.queue _ k.waits to_free;
        ends = k.ends;
        balance =
            rw (total-last frees w.queue _, total-append one_of before after)
              (omega (arith, k.balance, split));
        answers = λ f. rw (total-last (asked f) w.queue _) (omega (arith, k.answers f));
      }

  pub works-Kept :
      {cos : List (Option ℕ)} {q p : Request R} {rest : List (Request R)} {l : Link C}
      (w : Client C R)
      → w.queue ≡ q ∷ rest
      → Turn q w.link (ran (p, l))
      → Kept cos w
      → Kept cos (worked p rest l w)
  unfolding worked total
  works-Kept {q = q} {p = p} {rest = rest} w e (turned sound ends same_work same_co b) k =
      let front : total frees w.queue ≡ frees q + total frees rest = ap (total frees) e in
      record {
        sound = sound;
        waits = (subst AllWait e k.waits).1;
        ends = AllEnd-append w.done p k.ends ends;
        balance = rw (total-last holds w.done p) (omega (arith, k.balance, front, b));
        answers = λ f.
            let first : total (asked f) w.queue ≡ asked f q + total (asked f) rest =
              ap (total (asked f)) e in
            let same : asked f p ≡ asked f q =
              ap (λ x. asked_in x (f p.co)) same_work ∙ ap (λ c. asked_in q.work (f c)) same_co in
            rw (total-last (asked f) w.done p) (omega (arith, k.answers f, first, same));
      }
