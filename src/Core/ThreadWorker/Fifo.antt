-- ===== src/Core/ThreadWorker/Fifo.antt =====
-- Order, and the assertions of the two loops, over every interleaving of the two threads.
use php_flame.Prelude.{
  ℕ, ◌≡◌, refl, sym, ap, subst, ◌∙◌, ◌⊎◌, inl, inr, Bool, true, false, some, List, [], ◌∷◌, ◌++◌,
  append-nil, append_assoc, arith, returns, some_inj,
}
use php_flame.Core.ThreadWorker.{
  Work, req, exit_req, ThreadWorker, thread_worker, queue_work, close_work, close_work_in, sends,
  worker_turn, worker_close_cb, master_turn, master_close_cb, Step, queues, closes, works,
  worker_closes, finishes, master_closes, Reach, start, more,
}

-- The requests of a list, without the exit request.
abbrev pub reqs : List Work → List ℕ
reqs [] = []
reqs (req n ∷ l) = n ∷ reqs l
reqs (exit_req ∷ l) = reqs l

reqs-append : (xs ys : List Work) → reqs (xs ++ ys) ≡ reqs xs ++ reqs ys
reqs-append [] ys = refl
reqs-append (req n ∷ xs) ys = ap (◌∷◌ n) (reqs-append xs ys)
reqs-append (exit_req ∷ xs) ys = reqs-append xs ys

-- Nothing is lost, doubled or reordered between the threads.
pub record InOrder (sent : List ℕ) (w : ThreadWorker) : Type 0 where
  pub at_worker : reqs w.worked ++ reqs w.queue_worker ≡ sent
  pub at_master : reqs w.finished ++ reqs w.queue_master ≡ reqs w.worked

reqs-concat :
    (xs : List Work) (n : ℕ) (ys : List ℕ) → reqs (xs ++ req n ∷ []) ++ ys ≡ reqs xs ++ n ∷ ys
reqs-concat xs n ys = rw (reqs-append xs (req n ∷ [])) (append_assoc (reqs xs) (n ∷ []) ys)

reqs-concat_exit : (xs : List Work) → reqs (xs ++ exit_req ∷ []) ≡ reqs xs
reqs-concat_exit xs = rw (reqs-append xs (exit_req ∷ [])) (append-nil (reqs xs))

worker_turn-InOrder :
    (q : List Work) (sent : List ℕ) (w v : ThreadWorker)
    → w.queue_worker ≡ q
    → InOrder sent w
    → worker_turn q w ≡ some v
    → InOrder sent v
unfolding worker_turn
worker_turn-InOrder [] sent w v e i t = subst (InOrder sent) (some_inj t) i
worker_turn-InOrder (req n ∷ rest) sent w v e i t = subst (InOrder sent) (some_inj t) (record {
  at_worker = reqs-concat w.worked n (reqs rest) ∙ rw e at i.at_worker;
  at_master =
      rw (reqs-append w.queue_master (req n ∷ []), reqs-append w.worked (req n ∷ []))
        (sym (append_assoc (reqs w.finished) (reqs w.queue_master) (n ∷ []))
          ∙ ap (λ l. l ++ n ∷ []) i.at_master);
})
worker_turn-InOrder (exit_req ∷ []) sent w v e i t =
    subst (InOrder sent) (some_inj t)
      (record { at_worker = rw e at i.at_worker; at_master = i.at_master })
worker_turn-InOrder (exit_req ∷ x ∷ rest) sent w v e i t = cc

master_turn-InOrder :
    (q : List Work) (sent : List ℕ) (w v : ThreadWorker)
    → w.queue_master ≡ q
    → InOrder sent w
    → master_turn q w ≡ some v
    → InOrder sent v
unfolding master_turn
master_turn-InOrder [] sent w v e i t = subst (InOrder sent) (some_inj t) i
master_turn-InOrder (req n ∷ rest) sent w v e i t = subst (InOrder sent) (some_inj t) (record {
  at_worker = i.at_worker;
  at_master = reqs-concat w.finished n (reqs rest) ∙ rw e at i.at_master;
})
master_turn-InOrder (exit_req ∷ []) sent w v e i t =
    subst (InOrder sent) (some_inj t)
      (record { at_worker = i.at_worker; at_master = rw e at i.at_master })
master_turn-InOrder (exit_req ∷ x ∷ rest) sent w v e i t = cc

pub queue_work_lem :
    (n : ℕ) (w v : ThreadWorker)
    → queue_work n w ≡ returns v
    → (w.closing ≡ false) × (v ≡ record w { queue_worker = w.queue_worker ++ req n ∷ [] })
unfolding queue_work
queue_work_lem n w v t = ground arith

abbrev Closes : ThreadWorker → ThreadWorker → Type 0
Closes w v =
    (v ≡ w)
    ⊎ ((w.closing ≡ false)
        × (v ≡ record w { closing = true; queue_worker = w.queue_worker ++ exit_req ∷ [] }))

close_work-Closes : (b : Bool) (w : ThreadWorker) → w.closing ≡ b → Closes w (close_work_in b w)
unfolding close_work_in
close_work-Closes true w e = inl refl
close_work-Closes false w e = inr (e, refl)

Step-InOrder :
    {sent : List ℕ} {w v : ThreadWorker}
    → InOrder sent w
    → (s : Step w v) → InOrder (sent ++ sends s) v
Step-InOrder {sent} {w} {v} i (queues n t) = rw ((queue_work_lem n w v t).1) (record {
  at_worker = rw (reqs-append w.queue_worker (req n ∷ [])) (
      sym (append_assoc (reqs w.worked) (reqs w.queue_worker) (n ∷ []))
      ∙ ap (λ l. l ++ n ∷ []) i.at_worker);
  at_master = i.at_master;
})
Step-InOrder {sent} {w} i closes =
    rw append-nil (unfold close_work in closed _ (close_work-Closes w.closing w refl))
  where
    closed : (v : ThreadWorker) → Closes w v → InOrder sent v
    closed v (inl e) = rw e i
    closed v (inr (_, e)) = rw e (record {
      at_worker = rw (reqs-concat_exit w.queue_worker) i.at_worker;
      at_master = i.at_master;
    })
Step-InOrder {sent} {w} {v} i (works a b t) =
    rw append-nil (worker_turn-InOrder w.queue_worker sent w v refl i t)
Step-InOrder {sent} {w} i (worker_closes a) =
    unfold worker_close_cb in
    rw append-nil (record {
      at_worker = rw (reqs-concat_exit w.worked) i.at_worker;
      at_master = rw (reqs-concat_exit w.queue_master, reqs-concat_exit w.worked) i.at_master;
    })
Step-InOrder {sent} {w} {v} i (finishes a b t) =
    rw append-nil (master_turn-InOrder w.queue_master sent w v refl i t)
Step-InOrder {sent} {w} i (master_closes a) =
    unfold master_close_cb in
    rw append-nil
      (record { at_worker = i.at_worker; at_master = rw (reqs-concat_exit w.finished) i.at_master })

-- Over every interleaving of the threads: the requests that the worker has run, and behind them
-- those in its queue, are those that were sent, in order; and those that the main thread has
-- finished, and behind them those in its queue, are those that the worker has run, in order.
pub Reach-InOrder : {sent : List ℕ} {w : ThreadWorker} → Reach sent w → InOrder sent w
Reach-InOrder start = unfold thread_worker in record { at_worker = refl; at_master = refl }
Reach-InOrder (more r s) = Step-InOrder (Reach-InOrder r) s
