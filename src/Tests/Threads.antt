-- ===== src/Tests/Threads.antt =====
-- src/flame/thread_worker.cpp: one request and the shutdown.
use php_flame.Prelude.{◌≡◌, refl, [], ◌∷◌, true}
use php_flame.Core.ThreadWorker.{
  ThreadWorker, req, exit_req, thread_worker, queue_work, close_work, worker_turn, work_on,
  finish_on, close_work_in, worker_close_cb, master_turn, master_close_cb, Reach, start, more,
  queues, closes, works, worker_closes, finishes, master_closes,
}
use php_flame.Core.ThreadWorker.Fifo.{reqs, InOrder, Reach-InOrder}
use php_flame.Core.ThreadWorker.Shutdown.{closed_drains}

abbrev queued : ThreadWorker
queued = record thread_worker { queue_worker = req 5 ∷ [] }

abbrev shut : ThreadWorker
shut = record queued { closing = true; queue_worker = req 5 ∷ exit_req ∷ [] }

abbrev worked : ThreadWorker
worked = record shut {
  queue_worker = exit_req ∷ [];
  worked = req 5 ∷ [];
  queue_master = req 5 ∷ [];
}

abbrev worker_over : ThreadWorker
worker_over = record worked { queue_worker = []; worker_closing = true }

abbrev finished : ThreadWorker
finished = record worked {
  queue_worker = [];
  worker_closed = true;
  worked = req 5 ∷ exit_req ∷ [];
  queue_master = exit_req ∷ [];
  finished = req 5 ∷ [];
}

abbrev all_over : ThreadWorker
all_over = record finished {
  queue_master = [];
  master_closed = true;
  finished = req 5 ∷ exit_req ∷ [];
}

worked-Reach : Reach (5 ∷ []) worked
unfolding thread_worker queue_work close_work close_work_in worker_turn work_on
worked-Reach = more (more (more start (queues 5 refl)) closes) (works refl refl refl)

all_over-Reach : Reach (5 ∷ []) all_over
unfolding thread_worker worker_turn work_on worker_close_cb master_turn finish_on master_close_cb
all_over-Reach =
    more
      (more
        (more
          (more (more worked-Reach (works {v = worker_over} refl refl refl)) (worker_closes refl))
          (finishes {v = finished} refl refl refl))
        (finishes {v = record finished { queue_master = []; master_closing = true }} refl refl
          refl))
      (master_closes refl)

Reach-InOrder_example : InOrder (5 ∷ []) worked
Reach-InOrder_example = Reach-InOrder worked-Reach

closed_drains_example :
    (all_over.closing ≡ true)
    × (all_over.worker_closed ≡ true)
    × (reqs all_over.worked ≡ 5 ∷ [])
    × (reqs all_over.finished ≡ 5 ∷ [])
unfolding thread_worker
closed_drains_example = closed_drains all_over-Reach refl
