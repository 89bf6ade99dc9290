-- ===== src/Db/Mysql/Link/Callbacks.antt =====
-- The callbacks: what holds in every state of the client.
use php_flame.Prelude.{
  ℕ, suc, ◌+◌, ◌≡◌, sym, subst, Bool, true, false, Option, List, [], ◌∷◌, ◌++◌, arith,
}
use php_flame.Db.Mysql.Link.{
  Left, null, text, integer, pointer, Code, number, is_error, Work, connect_work, query_work,
  one_work, two_work,
}
use php_flame.Db.Mysql.Link.Client.{
  Resume, thrown, sent, exception, result_set, result_info, first_row, Client, call_back,
  connect_cb, ping_cb, default_cb, default_in, one_cb, one_in,
}
use php_flame.Db.Mysql.Link.Sound.{
  Sound, points, to_free, Ends, of_connect, of_ping, of_free, of_rows, of_query, of_row, of_one,
  holds_in, frees_in, req,
}
use php_flame.Db.Mysql.Link.Answered.{
  total, asked_in, AllWait, AllEnd, holds, frees, asked, answered, one_of, Kept,
}
use php_flame.Db.Mysql.Link.Working.{AllWait-append, total-last}

module _ {C R : Type 0} where
  -- The client, less a request that is called back: it holds results, and coroutines wait on it.
  pub record Pending (cos : List (Option ℕ)) (held : ℕ) (weight : (Option ℕ → ℕ) → ℕ)
      (w : Client C R) : Type 0 where
    pub sound : Sound w.link
    pub waits : AllWait w.queue
    pub ends : AllEnd w.done
    pub balance :
        w.link.stored
        ≡ w.link.freed + (total frees w.queue + ((held + total holds w.done) + total one_of w.sets))
    pub answers :
        (f : Option ℕ → ℕ)
        → total f cos
          ≡ total (asked f) w.queue
            + ((weight f + total (asked f) w.done) + total (answered f) w.resumed)

  settled-Kept : {cos : List (Option ℕ)} (w : Client C R) → Pending cos 0 (λ f. 0) w → Kept cos w
  settled-Kept w k = record {
    sound = k.sound;
    waits = k.waits;
    ends = k.ends;
    balance = omega (arith, k.balance);
    answers = λ f. omega (arith, k.answers f);
  }

  resumed-Kept :
      {cos : List (Option ℕ)} (co : Option ℕ) (x : Resume R) (w : Client C R)
      → Pending cos 0 (λ f. f co) w
      → Kept cos (record w { resumed = w.resumed ++ (co, x) ∷ [] })
  resumed-Kept co x w k = record {
    sound = k.sound;
    waits = k.waits;
    ends = k.ends;
    balance = omega (arith, k.balance);
    answers = λ f. rw (total-last (answered f) w.resumed (co, x)) (omega (arith, k.answers f));
  }

  timed-Kept :
      {cos : List (Option ℕ)} {n : ℕ} (w : Client C R)
      → Kept cos w
      → Kept cos (record w { timers = n })
  timed-Kept w k = record {
    sound = k.sound;
    waits = k.waits;
    ends = k.ends;
    balance = k.balance;
    answers = k.answers;
  }

  module _ {cos : List (Option ℕ)} (co : Option ℕ) (sql : Left R) where
    connect_cb-Kept :
        (rv : Left R) (code : Code) (w : Client C R)
        → Pending cos 0 (λ f. f co) w
        → Kept cos (connect_cb (req connect_work co rv sql code) w)
    unfolding connect_cb
    connect_cb-Kept rv code w k = by (is_error code)
      where
        by :
            (b : Bool)
            → Kept cos (elim b [
              | true ↦ record w { resumed = w.resumed ++ (co, thrown sql code) ∷ [] }
              | false ↦ record w {
                timers = suc w.timers;
                resumed = w.resumed ++ (co, sent rv) ∷ [];
              }
            ])
        by true = resumed-Kept co (thrown sql code) w k
        by false = timed-Kept _ (resumed-Kept co (sent rv) w k)

    default_in-Kept :
        (b : Bool) (rv : Left R) (code : Code) (w : Client C R)
        → points rv ≡ 0
        → Pending cos 0 (λ f. f co) w
        → Kept cos (default_in b rv (req query_work co rv sql code) w)
    unfolding default_in points
    default_in-Kept true rv code w p k = resumed-Kept co (exception sql code) w k
    default_in-Kept false null code w p k = resumed-Kept co (result_info null sql) w k
    default_in-Kept false (text s) code w p k = resumed-Kept co (result_info (text s) sql) w k
    default_in-Kept false (integer n) code w p k = resumed-Kept co (result_info (integer n) sql) w k
    default_in-Kept false (pointer r) code w p k = absurd (omega arith)

    pub call_back-Kept :
        {work : Work} {rv : Left R} {code : Code} (w : Client C R)
        → Ends work rv code
        → Pending cos (holds_in work rv) (λ f. asked_in work (f co)) w
        → Kept cos (call_back work (req work co rv sql code) w)
    unfolding call_back ping_cb default_cb one_cb is_error default_in one_in holds_in asked_in
        points total frees_in
    call_back-Kept {rv = rv} {code = code} w (of_connect p) k = connect_cb-Kept rv code w k
    call_back-Kept w of_ping k = timed-Kept w (settled-Kept w k)
    call_back-Kept w of_free k = settled-Kept w k
    call_back-Kept w (of_rows {r}) k = record {
      sound = k.sound;
      waits = k.waits;
      ends = k.ends;
      balance = omega (arith, k.balance);
      answers = λ f.
          rw (total-last (answered f) w.resumed (co, result_set r)) (omega (arith, k.answers f));
    }
    call_back-Kept {rv = rv} {code = code} w (of_query p) k =
        default_in-Kept (is_error code) rv code w p (subst (λ n. Pending cos n (λ f. f co) w) p k)
    call_back-Kept w (of_row {r}) k = record {
      sound = k.sound;
      waits = AllWait-append w.queue _ k.waits to_free;
      ends = k.ends;
      balance = rw (total-last frees w.queue _) (omega (arith, k.balance));
      answers = λ f.
          rw
            (
              total-last (asked f) w.queue (req two_work co (pointer r) sql (number 0)),
              total-last (answered f) w.resumed (co, first_row r),
            )
            (omega (arith, k.answers f));
    }
    call_back-Kept {rv = rv} {code = code} w (of_one e p) k =
        subst (λ b. Kept cos (one_in b rv (req one_work co rv sql code) w)) (sym e)
          (resumed-Kept co (exception sql code) w (subst (λ n. Pending cos n (λ f. f co) w) p k))
