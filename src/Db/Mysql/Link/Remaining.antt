-- ===== src/Db/Mysql/Link/Remaining.antt =====
-- How many turns of both threads are left to do, and that each turn leaves fewer.
use php_flame.Prelude.{
  ℕ, suc, ◌+◌, ◌≤◌, ◌≡◌, refl, ap, Bool, true, false, List, [], ◌∷◌, ◌++◌, arith,
}
use php_flame.Db.Mysql.Link.{
  Left, null, text, integer, pointer, is_error, Work, connect_work, ping_work, query_work, one_work,
  two_work, Request, Link,
}
use php_flame.Db.Mysql.Link.Client.{
  thrown, sent, Client, call_back, connect_cb, ping_cb, default_cb, default_in, one_cb, one_in,
}
use php_flame.Db.Mysql.Link.Answered.{total, worked, called}
use php_flame.Db.Mysql.Link.Working.{total-last}

-- Two turns for a request, and two more to free the result of `one`.
unfoldable pub turns_left : Work → ℕ
turns_left one_work = 4
turns_left work = 2

unfoldable pub callbacks_left : Work → ℕ
callbacks_left one_work = 3
callbacks_left work = 1

-- What a callback adds to the queue.
unfoldable pub added : Work → ℕ
added one_work = 2
added work = 0

turns_left-callbacks_left : (work : Work) → turns_left work ≡ suc (callbacks_left work)
unfolding turns_left callbacks_left
turns_left-callbacks_left connect_work = refl
turns_left-callbacks_left ping_work = refl
turns_left-callbacks_left query_work = refl
turns_left-callbacks_left one_work = refl
turns_left-callbacks_left two_work = refl

callbacks_left-added : (work : Work) → callbacks_left work ≡ suc (added work)
unfolding callbacks_left added
callbacks_left-added connect_work = refl
callbacks_left-added ping_work = refl
callbacks_left-added query_work = refl
callbacks_left-added one_work = refl
callbacks_left-added two_work = refl

module _ {R : Type 0} where
  abbrev before_work : Request R → ℕ
  before_work q = turns_left q.work

  abbrev before_callback : Request R → ℕ
  before_callback q = callbacks_left q.work

module _ {C R : Type 0} where
  -- The turns of both threads until nothing is left to do.
  abbrev pub left : Client C R → ℕ
  left w = total before_work w.queue + total before_callback w.done

  -- A callback leaves `url_` and the requests behind it, and adds at most one request.
  pub record Leaves (n : ℕ) (w v : Client C R) : Type 0 where
    pub same_url : v.url ≡ w.url
    pub same_done : v.done ≡ w.done
    pub few : total before_work v.queue ≤ n + total before_work w.queue

  default_in-Leaves :
      (b : Bool) (rv : Left R) (q : Request R) (w : Client C R) → Leaves 0 w (default_in b rv q w)
  unfolding default_in
  default_in-Leaves true rv q w = record { same_url = refl; same_done = refl; few = omega arith }
  default_in-Leaves false null q w = record { same_url = refl; same_done = refl; few = omega arith }
  default_in-Leaves false (text s) q w = record {
    same_url = refl;
    same_done = refl;
    few = omega arith;
  }
  default_in-Leaves false (integer n) q w = record {
    same_url = refl;
    same_done = refl;
    few = omega arith;
  }
  default_in-Leaves false (pointer r) q w = record {
    same_url = refl;
    same_done = refl;
    few = omega arith;
  }

  one_in-Leaves :
      (b : Bool) (rv : Left R) (q : Request R) (w : Client C R) → Leaves 2 w (one_in b rv q w)
  unfolding one_in turns_left total
  one_in-Leaves true rv q w = record { same_url = refl; same_done = refl; few = omega arith }
  one_in-Leaves false null q w = record { same_url = refl; same_done = refl; few = omega arith }
  one_in-Leaves false (text s) q w = record { same_url = refl; same_done = refl; few = omega arith }
  one_in-Leaves false (integer n) q w = record {
    same_url = refl;
    same_done = refl;
    few = omega arith;
  }
  one_in-Leaves false (pointer r) q w = record {
    same_url = refl;
    same_done = refl;
    few = rw (total-last before_work w.queue _) (omega arith);
  }

  connect_cb-Leaves : (q : Request R) (w : Client C R) → Leaves 0 w (connect_cb q w)
  unfolding connect_cb
  connect_cb-Leaves q w = by (is_error q.code)
    where
      by :
          (b : Bool)
          → Leaves 0 w (elim b [
            | true ↦ record w { resumed = w.resumed ++ (q.co, thrown q.sql q.code) ∷ [] }
            | false ↦ record w {
              timers = suc w.timers;
              resumed = w.resumed ++ (q.co, sent q.rv) ∷ [];
            }
          ])
      by true = record { same_url = refl; same_done = refl; few = omega arith }
      by false = record { same_url = refl; same_done = refl; few = omega arith }

  pub call_back-Leaves :
      (work : Work) (q : Request R) (w : Client C R) → Leaves (added work) w (call_back work q w)
  unfolding call_back added ping_cb default_cb one_cb
  call_back-Leaves connect_work q w = connect_cb-Leaves q w
  call_back-Leaves ping_work q w = record { same_url = refl; same_done = refl; few = omega arith }
  call_back-Leaves query_work q w = default_in-Leaves (is_error q.code) q.rv q w
  call_back-Leaves one_work q w = one_in-Leaves (is_error q.code) q.rv q w
  call_back-Leaves two_work q w = record { same_url = refl; same_done = refl; few = omega arith }

  pub left-worked :
      {q : Request R} {rest : List (Request R)} (p : Request R) (l : Link C) (w : Client C R)
      → w.queue ≡ q ∷ rest
      → p.work ≡ q.work
      → left w ≡ suc (left (worked p rest l w))
  unfolding worked total
  left-worked {q} {rest} p l w e same =
      let front : total before_work w.queue ≡ before_work q + total before_work rest =
        ap (total before_work) e in
      rw (front, total-last before_callback w.done p, ap callbacks_left same)
        (omega (arith, turns_left-callbacks_left q.work))

  pub left-called :
      {q : Request R} {rest : List (Request R)} (w : Client C R)
      → w.done ≡ q ∷ rest
      → suc (left (called q rest w)) ≤ left w
  unfolding called total
  left-called {q} {rest} w e =
      let leaves = call_back-Leaves q.work q (record w { done = rest }) in
      let front : total before_callback w.done ≡ before_callback q + total before_callback rest =
        ap (total before_callback) e in
      rw leaves.same_done (omega (arith, front, leaves.few, callbacks_left-added q.work))
