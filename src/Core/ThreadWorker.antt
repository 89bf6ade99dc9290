-- ===== src/Core/ThreadWorker.antt =====
-- src/flame/thread_worker.cpp: the two queues between the main thread and a worker thread. The
-- worker's and the main thread's callbacks run at any time, in any order, and each turn of their
-- loops takes one request under the queue's lock: these turns are the steps here. uv_async_send
-- wakes the other thread, which then takes turns until its queue is empty.
pub mod Fifo
pub mod Shutdown
use Prim.Native.String.{String}
use php_flame.Prelude.{
  ℕ, ◌+◌, ◌≡◌, ◌≢◌, Bool, true, false, Option, none, some, List, [], ◌∷◌, ◌++◌, Outcome, returns,
  throws,
}

-- A request of `queue_work`, by a number, or `exit_req`.
pub data Work : Type 0 where
  req : ℕ → Work
  exit_req : Work

-- `closing` is `exit_req.data != nullptr`; `worker_closed` and `master_closed` are the closed
-- handles. `worked` and `finished` log, oldest first, what work_cb and after_work_cb ran for.
pub record ThreadWorker : Type 0 where
  pub queue_worker : List Work
  pub queue_master : List Work
  pub closing : Bool
  pub worker_closing : Bool
  pub worker_closed : Bool
  pub master_closing : Bool
  pub master_closed : Bool
  pub worked : List Work
  pub finished : List Work

unfoldable pub thread_worker : ThreadWorker
thread_worker = record {
  queue_worker = [];
  queue_master = [];
  closing = false;
  worker_closing = false;
  worker_closed = false;
  master_closing = false;
  master_closed = false;
  worked = [];
  finished = [];
}

unfoldable pub queue_work : ℕ → ThreadWorker → Outcome ThreadWorker
queue_work n w = elim w.closing [
  | true ↦ throws "cannot queue work after closing"
  | false ↦ returns (record w { queue_worker = w.queue_worker ++ req n ∷ [] })
]

unfoldable pub close_work_in : Bool → ThreadWorker → ThreadWorker
close_work_in true w = w
close_work_in false w = record w { closing = true; queue_worker = w.queue_worker ++ exit_req ∷ [] }

-- `close_work`, up to the wait for the worker thread (`uv_thread_join`).
unfoldable pub close_work : ThreadWorker → ThreadWorker
close_work w = close_work_in w.closing w

-- What a turn of `worker_cb` does with the request that it takes; none where the assertion that
-- the queue is empty behind `exit_req` fails.
unfoldable pub work_on : Work → List Work → ThreadWorker → Option ThreadWorker
work_on exit_req [] w = some (record w { queue_worker = []; worker_closing = true })
work_on exit_req (x ∷ rest) w = none
work_on (req n) rest w = some (record w {
  queue_worker = rest;
  worked = w.worked ++ req n ∷ [];
  queue_master = w.queue_master ++ req n ∷ [];
})

-- The turn of `worker_cb` on the queue as it is; an empty queue ends the loop.
unfoldable pub worker_turn : List Work → ThreadWorker → Option ThreadWorker
unfolding work_on
worker_turn [] w = some w
worker_turn (x ∷ rest) w = work_on x rest w

-- `worker_close_cb`, after the worker's handle is closed.
unfoldable pub worker_close_cb : ThreadWorker → ThreadWorker
worker_close_cb w = record w {
  worker_closing = false;
  worker_closed = true;
  worked = w.worked ++ exit_req ∷ [];
  queue_master = w.queue_master ++ exit_req ∷ [];
}

unfoldable pub finish_on : Work → List Work → ThreadWorker → Option ThreadWorker
finish_on exit_req [] w = some (record w { queue_master = []; master_closing = true })
finish_on exit_req (x ∷ rest) w = none
finish_on (req n) rest w =
    some (record w { queue_master = rest; finished = w.finished ++ req n ∷ [] })

-- The turn of `master_cb`.
unfoldable pub master_turn : List Work → ThreadWorker → Option ThreadWorker
unfolding finish_on
master_turn [] w = some w
master_turn (x ∷ rest) w = finish_on x rest w

unfoldable pub master_close_cb : ThreadWorker → ThreadWorker
master_close_cb w = record w {
  master_closing = false;
  master_closed = true;
  finished = w.finished ++ exit_req ∷ [];
}

-- One step of either thread. A handle that has been closed takes no more turns.
pub data Step (w : ThreadWorker) : ThreadWorker → Type 0 where
  queues : (n : ℕ) {v : ThreadWorker} → queue_work n w ≡ returns v → Step w v
  closes : Step w (close_work w)
  works :
      {v : ThreadWorker}
      → w.worker_closing ≡ false
      → w.worker_closed ≡ false
      → worker_turn w.queue_worker w ≡ some v
      → Step w v
  worker_closes : w.worker_closing ≡ true → Step w (worker_close_cb w)
  finishes :
      {v : ThreadWorker}
      → w.master_closing ≡ false
      → w.master_closed ≡ false
      → master_turn w.queue_master w ≡ some v
      → Step w v
  master_closes : w.master_closing ≡ true → Step w (master_close_cb w)

-- The numbers that a step puts into the queue.
abbrev pub sends : {w v : ThreadWorker} → Step w v → List ℕ
sends (queues n e) = n ∷ []
sends closes = []
sends (works a b e) = []
sends (worker_closes a) = []
sends (finishes a b e) = []
sends (master_closes a) = []

-- All interleavings of the two threads, with the numbers that went into the queue, in order.
pub data Reach : List ℕ → ThreadWorker → Type 0 where
  start : Reach [] thread_worker
  more :
      {sent : List ℕ} {w v : ThreadWorker}
      → Reach sent w
      → (s : Step w v) → Reach (sent ++ sends s) v
