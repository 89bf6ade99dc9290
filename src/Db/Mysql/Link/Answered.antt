-- ===== src/Db/Mysql/Link/Answered.antt =====
-- Runs of the client: what is asked, worked on by the worker thread in order, called back in
-- order, and answered.
use Prim.Native.String.{String}
use php_flame.Prelude.{
  ℕ, ◌+◌, ◌≡◌, true, Option, none, List, [], ◌∷◌, ◌++◌, returns, throws, Bytes, has_prefix, arith,
}
use php_flame.Db.Mysql.Link.{
  Url, Driver, null, text, Work, ping_work, query_work, one_work, two_work, Request, Link, ran,
  client_implement, work_on,
}
use php_flame.Db.Mysql.Link.Client.{Resume, Client, call_back, asks, drops_set}
use php_flame.Db.Mysql.Link.Urls.{connect}
use php_flame.Db.Mysql.Link.Sound.{Sound, select, Waits, Ends, holds_in, frees_in}

unfoldable pub total {ℓ} : {A : Type ℓ} → (A → ℕ) → List A → ℕ
total f [] = 0
total f (a ∷ more) = f a + total f more

pub total-append {ℓ} :
    {A : Type ℓ} (f : A → ℕ) (xs ys : List A) → total f (xs ++ ys) ≡ total f xs + total f ys
unfolding total
total-append f [] ys = omega arith
total-append f (x ∷ xs) ys = rw (total-append f xs ys) (omega arith)

-- The coroutines that wait on a request, by their weight: a ping and the freeing of a result
-- have none.
unfoldable pub asked_in : Work → ℕ → ℕ
asked_in ping_work n = 0
asked_in two_work n = 0
asked_in work n = n

module _ {R : Type 0} where
  abbrev pub AllWait : List (Request R) → Type 0
  AllWait [] = Unit {0}
  AllWait (q ∷ queue) = Waits q.work q.rv q.sql q.code × AllWait queue

  abbrev pub AllEnd : List (Request R) → Type 0
  AllEnd [] = Unit {0}
  AllEnd (q ∷ done) = Ends q.work q.rv q.code × AllEnd done

  abbrev pub holds : Request R → ℕ
  holds q = holds_in q.work q.rv

  abbrev pub frees : Request R → ℕ
  frees q = frees_in q.work

  abbrev pub asked : (Option ℕ → ℕ) → Request R → ℕ
  asked f q = asked_in q.work (f q.co)

  abbrev pub answered : (Option ℕ → ℕ) → Option ℕ × Resume R → ℕ
  answered f x = f x.0

  abbrev pub one_of : R → ℕ
  one_of r = 1

module _ {C R : Type 0} where
  -- A turn of the worker thread, which moves the request on.
  unfoldable pub worked : Request R → List (Request R) → Link C → Client C R → Client C R
  worked p rest l w = record w { link = l; queue = rest; done = w.done ++ p ∷ [] }

  unfoldable pub called : Request R → List (Request R) → Client C R → Client C R
  called q rest w = call_back q.work q (record w { done = rest })

  unfoldable pub client : Driver C R → Client C R
  client driver = record {
    link = client_implement driver;
    url = none;
    queue = [];
    done = [];
    timers = 0;
    sets = [];
    resumed = [];
  }

  -- A turn of either thread, on the request at the front of its queue.
  pub data Step (driver : Driver C R) (w : Client C R) : Client C R → Type 0 where
    works :
        {q p : Request R} {rest : List (Request R)} {l : Link C}
        → w.queue ≡ q ∷ rest
        → work_on driver q.work w.url q w.link ≡ ran (p, l)
        → Step driver w (worked p rest l w)
    calls :
        {q : Request R} {rest : List (Request R)}
        → w.done ≡ q ∷ rest
        → Step driver w (called q rest w)

  -- The client after calls by these coroutines, newest first, and turns of the threads.
  pub data Reach (driver : Driver C R) (parse_url : Bytes → Option Url)
      : List (Option ℕ) → Client C R → Type 0 where
    at_once : Reach driver parse_url [] (client driver)
    connects :
        {cos : List (Option ℕ)} {w v : Client C R} (co : Option ℕ) (url : Option Bytes)
        → Reach driver parse_url cos w
        → connect parse_url co url w ≡ (v, returns tt)
        → Reach driver parse_url (co ∷ cos) v
    refuses :
        {cos : List (Option ℕ)} {w v : Client C R} {why : String} (co : Option ℕ)
        (url : Option Bytes)
        → Reach driver parse_url cos w
        → connect parse_url co url w ≡ (v, throws why)
        → Reach driver parse_url cos v
    queries :
        {cos : List (Option ℕ)} {w : Client C R} (co : Option ℕ) (s : Bytes)
        → Reach driver parse_url cos w
        → Reach driver parse_url (co ∷ cos) (asks query_work co (text s) w)
    ones :
        {cos : List (Option ℕ)} {w : Client C R} (co : Option ℕ) (s : Bytes)
        → has_prefix select s ≡ true
        → Reach driver parse_url cos w
        → Reach driver parse_url (co ∷ cos) (asks one_work co (text s) w)
    pings :
        {cos : List (Option ℕ)} {w : Client C R} (co : Option ℕ)
        → Reach driver parse_url cos w
        → Reach driver parse_url cos (asks ping_work co null w)
    drops :
        {cos : List (Option ℕ)} {w : Client C R} (before after : List R) (r : R)
        → Reach driver parse_url cos w
        → w.sets ≡ before ++ r ∷ after
        → Reach driver parse_url cos (drops_set r (before ++ after) w)
    turns :
        {cos : List (Option ℕ)} {w v : Client C R}
        → Reach driver parse_url cos w
        → Step driver w v
        → Reach driver parse_url cos v

  -- Every result that was stored is freed, or held by exactly one request or result set; every
  -- coroutine that asked waits on one request, or was resumed.
  pub record Kept (cos : List (Option ℕ)) (w : Client C R) : Type 0 where
    pub sound : Sound w.link
    pub waits : AllWait w.queue
    pub ends : AllEnd w.done
    pub balance :
        w.link.stored
        ≡ w.link.freed + (total frees w.queue + (total holds w.done + total one_of w.sets))
    pub answers :
        (f : Option ℕ → ℕ)
        → total f cos
          ≡ total (asked f) w.queue + (total (asked f) w.done + total (answered f) w.resumed)
