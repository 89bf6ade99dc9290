-- ===== src/Core/ThreadWorker/Shutdown.antt =====
-- The shutdown of a worker thread, over every interleaving of the two threads.
use php_flame.Prelude.{
  ℕ, ◌≡◌, refl, sym, subst, ◌∙◌, Bool, true, false, Option, some, List, [], ◌∷◌, ◌++◌, append-nil,
  arith, All, some_inj,
}
use php_flame.Core.ThreadWorker.{
  Work, req, exit_req, ThreadWorker, thread_worker, close_work, close_work_in, worker_turn,
  worker_close_cb, master_turn, master_close_cb, Step, queues, closes, works, worker_closes,
  finishes, master_closes, Reach, start, more,
}
use php_flame.Core.ThreadWorker.Fifo.{reqs, Reach-InOrder, queue_work_lem}

abbrev IsReq : Work → Type 0
IsReq (req n) = Unit
IsReq exit_req = ⊥

All-concat : (l : List Work) (n : ℕ) → All IsReq l → All IsReq (l ++ req n ∷ [])
All-concat [] n h = (tt, tt)
All-concat (x ∷ l) n h = (h.0, All-concat l n h.1)

-- The flags of a worker: closing, worker_closing, worker_closed, master_closing, master_closed.
abbrev Flags : ThreadWorker → Bool → Bool → Bool → Bool → Bool → Type 0
Flags w a b c d e =
    (w.closing ≡ a)
    × (w.worker_closing ≡ b)
    × (w.worker_closed ≡ c)
    × (w.master_closing ≡ d)
    × (w.master_closed ≡ e)

-- The exit request is behind all requests of a queue.
abbrev Behind : List Work → Type 0
Behind q = (r : List Work) × All IsReq r × (q ≡ r ++ exit_req ∷ [])

-- Where the exit request stands.
data Stage (w : ThreadWorker) : Type 0 where
  serving :
      Flags w false false false false false
      → All IsReq w.queue_worker
      → All IsReq w.queue_master
      → Stage w
  exit_queued :
      Flags w true false false false false
      → Behind w.queue_worker
      → All IsReq w.queue_master
      → Stage w
  worker_ends :
      Flags w true true false false false → w.queue_worker ≡ [] → All IsReq w.queue_master → Stage w
  exit_passed :
      Flags w true false true false false → w.queue_worker ≡ [] → Behind w.queue_master → Stage w
  master_ends :
      Flags w true false true true false → w.queue_worker ≡ [] → w.queue_master ≡ [] → Stage w
  over : Flags w true false true false true → w.queue_worker ≡ [] → w.queue_master ≡ [] → Stage w

-- A turn of the worker on a queue with the exit request behind all others.
behind_worker :
    (r : List Work) (w : ThreadWorker)
    → All IsReq r
    → Flags w true false false false false
    → All IsReq w.queue_master
    → (v : ThreadWorker) × (worker_turn (r ++ exit_req ∷ []) w ≡ some v) × Stage v
unfolding worker_turn
behind_worker [] w h f m = (_, refl, worker_ends (f.0, refl, f.2, f.3, f.4) refl m)
behind_worker (req n ∷ r) w h f m =
    (_, refl, exit_queued f (r, h.1, refl) (All-concat w.queue_master n m))
behind_worker (exit_req ∷ r) w h f m = absurd h.0

serving_worker :
    (q : List Work) (w : ThreadWorker)
    → w.queue_worker ≡ q
    → All IsReq q
    → Flags w false false false false false
    → All IsReq w.queue_master
    → (v : ThreadWorker) × (worker_turn q w ≡ some v) × Stage v
unfolding worker_turn
serving_worker [] w e h f m = (w, refl, serving f (rw e h) m)
serving_worker (req n ∷ q) w e h f m = (_, refl, serving f h.1 (All-concat w.queue_master n m))
serving_worker (exit_req ∷ q) w e h f m = absurd h.0

-- A turn of the main thread on a queue of requests alone: the rest stays, whatever the stage.
behind_master :
    (r : List Work) (w : ThreadWorker)
    → All IsReq r
    → Flags w true false true false false
    → w.queue_worker ≡ []
    → (v : ThreadWorker) × (master_turn (r ++ exit_req ∷ []) w ≡ some v) × Stage v
unfolding master_turn
behind_master [] w h f e = (_, refl, master_ends (f.0, f.1, f.2, refl, f.4) e refl)
behind_master (req n ∷ r) w h f e = (_, refl, exit_passed f e (r, h.1, refl))
behind_master (exit_req ∷ r) w h f e = absurd h.0

serving_master :
    (q : List Work) (w : ThreadWorker)
    → w.queue_master ≡ q
    → All IsReq q
    → (v : ThreadWorker) × (master_turn q w ≡ some v)
      × (l : List Work) × All IsReq l
      × (v ≡ record w { queue_master = l; finished = v.finished })
unfolding master_turn
serving_master [] w e h = (w, refl, [], tt, ground arith)
serving_master (req n ∷ q) w e h = (_, refl, q, h.1, refl)
serving_master (exit_req ∷ q) w e h = absurd h.0

abbrev Safe : (List Work → ThreadWorker → Option ThreadWorker) → List Work → ThreadWorker → Type 0
Safe turn q w = (v : ThreadWorker) × (turn q w ≡ some v) × Stage v

worker-Safe :
    {w : ThreadWorker}
    → Stage w
    → w.worker_closing ≡ false
    → w.worker_closed ≡ false
    → Safe worker_turn w.queue_worker w
worker-Safe {w} (serving f h m) a b = serving_worker w.queue_worker w refl h f m
worker-Safe {w} (exit_queued f h m) a b =
    subst (λ q. Safe worker_turn q w) (sym h.2) (behind_worker h.0 w h.1 f m)
worker-Safe (worker_ends f e m) a b = cc (f.1)
worker-Safe (exit_passed f e h) a b = cc (f.2)
worker-Safe (master_ends f e h) a b = cc (f.2)
worker-Safe (over f e h) a b = cc (f.2)

master-Safe :
    {w : ThreadWorker}
    → Stage w
    → w.master_closing ≡ false
    → w.master_closed ≡ false
    → Safe master_turn w.queue_master w
master-Safe {w} (serving f h m) a b =
    let (v, t, l, hl, e) = serving_master w.queue_master w refl m in
    (v, t, subst Stage (sym e) (serving f h hl))
master-Safe {w} (exit_queued f h m) a b =
    let (v, t, l, hl, e) = serving_master w.queue_master w refl m in
    (v, t, subst Stage (sym e) (exit_queued f h hl))
master-Safe {w} (worker_ends f q m) a b =
    let (v, t, l, hl, e) = serving_master w.queue_master w refl m in
    (v, t, subst Stage (sym e) (worker_ends f q hl))
master-Safe {w} (exit_passed f e h) a b =
    subst (λ q. Safe master_turn q w) (sym h.2) (behind_master h.0 w h.1 f e)
master-Safe (master_ends f e h) a b = cc (f.3)
master-Safe (over f e h) a b = cc (f.4)

close_work-Stage :
    (b : Bool) {w : ThreadWorker} → w.closing ≡ b → Stage w → Stage (close_work_in b w)
unfolding close_work_in
close_work-Stage true e s = s
close_work-Stage false {w} e (serving f h m) =
    exit_queued (refl, f.1, f.2, f.3, f.4) (w.queue_worker, h, refl) m
close_work-Stage false e (exit_queued f h m) = cc (e, f.0)
close_work-Stage false e (worker_ends f h m) = cc (e, f.0)
close_work-Stage false e (exit_passed f h m) = cc (e, f.0)
close_work-Stage false e (master_ends f h m) = cc (e, f.0)
close_work-Stage false e (over f h m) = cc (e, f.0)

queue_work-Stage :
    (n : ℕ) {w : ThreadWorker}
    → w.closing ≡ false
    → Stage w
    → Stage (record w { queue_worker = w.queue_worker ++ req n ∷ [] })
queue_work-Stage n {w} e (serving f h m) = serving f (All-concat w.queue_worker n h) m
queue_work-Stage n e (exit_queued f h m) = cc (e, f.0)
queue_work-Stage n e (worker_ends f h m) = cc (e, f.0)
queue_work-Stage n e (exit_passed f h m) = cc (e, f.0)
queue_work-Stage n e (master_ends f h m) = cc (e, f.0)
queue_work-Stage n e (over f h m) = cc (e, f.0)

worker_close_cb-Stage :
    {w : ThreadWorker} → w.worker_closing ≡ true → Stage w → Stage (worker_close_cb w)
unfolding worker_close_cb
worker_close_cb-Stage {w} a (worker_ends f e m) =
    exit_passed (f.0, refl, refl, f.3, f.4) e (w.queue_master, m, refl)
worker_close_cb-Stage a (serving f h m) = cc (a, f.1)
worker_close_cb-Stage a (exit_queued f h m) = cc (a, f.1)
worker_close_cb-Stage a (exit_passed f h m) = cc (a, f.1)
worker_close_cb-Stage a (master_ends f h m) = cc (a, f.1)
worker_close_cb-Stage a (over f h m) = cc (a, f.1)

master_close_cb-Stage :
    {w : ThreadWorker} → w.master_closing ≡ true → Stage w → Stage (master_close_cb w)
unfolding master_close_cb
master_close_cb-Stage a (master_ends f e m) = over (f.0, f.1, f.2, refl, refl) e m
master_close_cb-Stage a (serving f h m) = cc (a, f.3)
master_close_cb-Stage a (exit_queued f h m) = cc (a, f.3)
master_close_cb-Stage a (worker_ends f h m) = cc (a, f.3)
master_close_cb-Stage a (exit_passed f h m) = cc (a, f.3)
master_close_cb-Stage a (over f h m) = cc (a, f.3)

Safe-Stage :
    (turn : List Work → ThreadWorker → Option ThreadWorker) (q : List Work) (w : ThreadWorker)
    {v : ThreadWorker}
    → Safe turn q w
    → turn q w ≡ some v
    → Stage v
Safe-Stage turn q w (v', e, s) t = subst Stage (some_inj (sym e ∙ t)) s

Step-Stage : {w v : ThreadWorker} → Step w v → Stage w → Stage v
Step-Stage {w} {v} (queues n t) s =
    let (open_, e) = queue_work_lem n w v t in subst Stage (sym e) (queue_work-Stage n open_ s)
Step-Stage {w} closes s = unfold close_work in close_work-Stage w.closing refl s
Step-Stage {w} (works a b t) s = Safe-Stage worker_turn w.queue_worker w (worker-Safe s a b) t
Step-Stage (worker_closes a) s = worker_close_cb-Stage a s
Step-Stage {w} (finishes a b t) s = Safe-Stage master_turn w.queue_master w (master-Safe s a b) t
Step-Stage (master_closes a) s = master_close_cb-Stage a s

Reach-Stage : {sent : List ℕ} {w : ThreadWorker} → Reach sent w → Stage w
Reach-Stage start = unfold thread_worker in serving (refl, refl, refl, refl, refl) tt tt
Reach-Stage (more r s) = Step-Stage s (Reach-Stage r)

-- Over every interleaving, as long as the worker's handle is open, a turn of its loop passes the
-- assertion that nothing is queued behind the exit request.
pub worker_turn_safe :
    {sent : List ℕ} {w : ThreadWorker}
    → Reach sent w
    → w.worker_closing ≡ false
    → w.worker_closed ≡ false
    → (v : ThreadWorker) × (worker_turn w.queue_worker w ≡ some v)
worker_turn_safe r a b = let t = worker-Safe (Reach-Stage r) a b in (t.0, t.1)

-- Over every interleaving, as long as the main thread's handle is open, a turn of its loop passes
-- the assertion that nothing is queued behind the exit request.
pub master_turn_safe :
    {sent : List ℕ} {w : ThreadWorker}
    → Reach sent w
    → w.master_closing ≡ false
    → w.master_closed ≡ false
    → (v : ThreadWorker) × (master_turn w.queue_master w ≡ some v)
master_turn_safe r a b = let t = master-Safe (Reach-Stage r) a b in (t.0, t.1)

over-Stage :
    {w : ThreadWorker}
    → Stage w
    → w.master_closed ≡ true
    → (w.closing ≡ true) × (w.worker_closed ≡ true) × (w.queue_worker ≡ []) × (w.queue_master ≡ [])
over-Stage (over f e h) a = (f.0, f.2, e, h)
over-Stage (serving f h m) a = cc (a, f.4)
over-Stage (exit_queued f h m) a = cc (a, f.4)
over-Stage (worker_ends f h m) a = cc (a, f.4)
over-Stage (exit_passed f h m) a = cc (a, f.4)
over-Stage (master_ends f h m) a = cc (a, f.4)

-- Once the main thread's handle is closed, `close_work` has been called, the worker's handle is
-- closed, and each request that was sent has been run by the worker and finished by the main
-- thread, in the order in which they were sent.
pub closed_drains :
    {sent : List ℕ} {w : ThreadWorker}
    → Reach sent w
    → w.master_closed ≡ true
    → (w.closing ≡ true)
      × (w.worker_closed ≡ true)
      × (reqs w.worked ≡ sent)
      × (reqs w.finished ≡ sent)
closed_drains {sent} {w} r a =
    let (c, d, q, m) = over-Stage (Reach-Stage r) a in
    let i = Reach-InOrder r in
    let worked : reqs w.worked ≡ sent = rw (q, append-nil) at i.at_worker in
    let finished : reqs w.finished ≡ reqs w.worked = rw (m, append-nil) at i.at_master in
    (c, d, worked, finished ∙ worked)
