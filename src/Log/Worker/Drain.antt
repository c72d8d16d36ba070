-- ===== src/Log/Worker/Drain.antt =====
-- log_system/logs_code/AsyncWorker.hpp: after a stop the thread returns, and `Stop` can join it.
use asyn_log_system_cloud_st.Base.{
  ℕ, zero, suc, ◌≡◌, refl, ap, ◌∙◌, true, false, Bool-cases, subst, inl, inr, some, arith,
}
use asyn_log_system_cloud_st.Log.Buffer.{BufferConfig, Buffer, is_empty, reset, new, ok}
use asyn_log_system_cloud_st.Log.Buffer.Growth.{IsConfig}
use asyn_log_system_cloud_st.Log.Buffer.Push.{contents_size}
use asyn_log_system_cloud_st.Log.Worker.{
  Worker, AsyncType, Phase, waiting, flushing, finished, may_take, take_buffers, flush, thread_step,
}
use asyn_log_system_cloud_st.Log.Worker.Steps.{Run, Reach, joined}
use asyn_log_system_cloud_st.Log.Worker.Delivery.{
  PhaseFits, Inv, Reach-Inv, start-Inv, start_run, finished-delivered, take_buffers-Inv, flush-Inv,
}

-- The thread alone, for `n` of its steps.
pub thread_run : ℕ → Worker → Worker
thread_run zero w = w
thread_run (suc n) w = thread_run n (thread_step w)

step_finished : (w : Worker) → w.phase ≡ finished → thread_step w ≡ w
unfolding thread_step
step_finished w e = ground arith

step_flush :
    (w : Worker)
    → w.phase ≡ flushing
    → ((thread_step w).phase ≡ waiting)
      × ((thread_step w).stopping ≡ w.stopping)
      × ((thread_step w).producer ≡ w.producer)
      × (is_empty (thread_step w).consumer ≡ true)
unfolding thread_step flush is_empty reset
step_flush w e = ground arith

step_take :
    (w : Worker)
    → w.phase ≡ waiting
    → w.stopping ≡ true
    → is_empty w.producer ≡ false
    → ((thread_step w).phase ≡ flushing)
      × ((thread_step w).stopping ≡ true)
      × ((thread_step w).producer ≡ w.consumer)
unfolding thread_step may_take take_buffers
step_take w e s h = ground arith

step_last :
    (w : Worker)
    → w.phase ≡ waiting
    → w.stopping ≡ true
    → is_empty w.producer ≡ true
    → (thread_step w).phase ≡ finished
unfolding thread_step may_take take_buffers
step_last w e s h = ground arith

run_finished : (n : ℕ) (w : Worker) → w.phase ≡ finished → (thread_run n w).phase ≡ finished
unfolding thread_run
run_finished zero w e = e
run_finished (suc n) w e =
    run_finished n (thread_step w) (ap (λ x. x.phase) (step_finished w e) ∙ e)

-- With a stop requested: from an empty producer's buffer, from any, and from a flush under way.
drain_empty :
    (n : ℕ) (w : Worker)
    → w.phase ≡ waiting
    → w.stopping ≡ true
    → is_empty w.producer ≡ true
    → (thread_run (suc n) w).phase ≡ finished
unfolding thread_run
drain_empty n w e s h = run_finished n (thread_step w) (step_last w e s h)

drain_waiting :
    (n : ℕ) (w : Worker)
    → w.phase ≡ waiting
    → w.stopping ≡ true
    → is_empty w.consumer ≡ true
    → (thread_run (suc (suc (suc n))) w).phase ≡ finished
unfolding thread_run
drain_waiting n w e s h = elim (Bool-cases (is_empty w.producer)) [
  | inl none_left ↦ drain_empty (suc (suc n)) w e s none_left
  | inr more ↦
      let (p, t, b) = step_take w e s more in
      let (p', t', b', _) = step_flush (thread_step w) p in
      drain_empty n (thread_step (thread_step w)) p' (t' ∙ t) (ap is_empty (b' ∙ b) ∙ h)
]

drain_flushing :
    (n : ℕ) (w : Worker)
    → w.phase ≡ flushing
    → w.stopping ≡ true
    → (thread_run (suc (suc (suc (suc n)))) w).phase ≡ finished
unfolding thread_run
drain_flushing n w e s =
    let (p, t, b, c) = step_flush w e in drain_waiting n (thread_step w) p (t ∙ s) c

drain_phase :
    (ph : Phase) (r : Run)
    → Inv r
    → r.worker.phase ≡ ph
    → r.worker.stopping ≡ true
    → (thread_run 4 r.worker).phase ≡ finished
drain_phase waiting r v e s =
    let idle = subst (λ p. PhaseFits p r.worker) e v.phase_fits in
    drain_waiting 1 r.worker e s ((contents_size r.worker.consumer v.consumer_valid).0.1 idle)
drain_phase flushing r v e s = drain_flushing 0 r.worker e s
drain_phase finished r v e s = run_finished 4 r.worker e

-- The thread's steps are steps of the run, so they keep its invariant.
thread_step-Inv : (r : Run) → Inv r → Inv (record r { worker = thread_step r.worker })
unfolding thread_step
thread_step-Inv r v = go r.worker.phase refl
  where
    go : (ph : Phase) → r.worker.phase ≡ ph → Inv (record r { worker = thread_step r.worker })
    go waiting e = elim (Bool-cases (may_take r.worker)) [
      | inl ready ↦ rw (e, ready, thread_step) (take_buffers-Inv r v e)
      | inr blocked ↦ rw (e, blocked, thread_step) v
    ]
    go flushing e = rw (e, thread_step) (flush-Inv r v e)
    go finished e = rw (e, thread_step) v

thread_run-Inv : (n : ℕ) (r : Run) → Inv r → Inv (record r { worker = thread_run n r.worker })
unfolding thread_run
thread_run-Inv zero r v = v
thread_run-Inv (suc n) r v =
    thread_run-Inv n (record r { worker = thread_step r.worker }) (thread_step-Inv r v)

-- Once a stop is requested, in any state that a run from a new worker can reach, the log thread
-- returns after at most four of its own steps, and by then has delivered every accepted byte.
pub thread_run-finished :
    (c : BufferConfig) (type_ : AsyncType) (p q : Buffer) {r : Run}
    → IsConfig c
    → new (some c) ≡ ok p
    → new (some c) ≡ ok q
    → Reach c (start_run type_ p q) r
    → r.worker.stopping ≡ true
    → ((thread_run 4 r.worker).phase ≡ finished)
      × (joined (thread_run 4 r.worker).delivered ≡ r.accepted)
thread_run-finished c type_ p q {r} config e f reach s =
    let v = Reach-Inv c config (start-Inv c config type_ p q e f) reach in
    let done = drain_phase r.worker.phase r v refl s in
    (
      done,
      finished-delivered (record r { worker = thread_run 4 r.worker }) (thread_run-Inv 4 r v) done,
    )
