-- ===== src/Log/Pool/Order.antt =====
-- log_system/logs_code/ThreadPool.hpp: the queue is bounded, and each accepted task runs once.
use asyn_log_system_cloud_st.Base.{
  ℕ, zero, suc, ◌+◌, ◌<◌, ◌≡◌, refl, sym, ap, ◌∙◌, true, false, Bool-cases, subst, inl, inr, List,
  [], ◌∷◌, ◌++◌, length, length-append, length-replicate, append-nil, append_assoc, replicate,
  arith,
}
use asyn_log_system_cloud_st.Log.Pool.{
  Slot, held, idle, returned, running, ThreadPool, ok, new, shut_down, take_task, run_task,
}
use asyn_log_system_cloud_st.Log.Pool.Steps.{
  Run, WorkerStep, takes, runs, Step, enqueued, tried, shut, worked, Reach, here, next,
}
use asyn_log_system_cloud_st.Log.Pool.Invariant.{
  occurrences, occurrences-append, in_hand, occurrences-in_hand, HasReturned, Inv,
  HasReturned-cases, HasReturned-replace, enqueue-ok, try_enqueue-true, section_stop, section_wait,
  section_take,
}

module _ (r : Run) (v : Inv r) where
  added-Inv :
      (task : ℕ)
      → r.pool.stopping ≡ false
      → length r.pool.tasks < r.pool.max_pending_tasks
      → Inv (record {
        pool = record r.pool { tasks = r.pool.tasks ++ task ∷ [] };
        accepted = r.accepted ++ task ∷ [];
      })
  added-Inv task active room = record {
    bounded = omega (arith, length-append r.pool.tasks (task ∷ []));
    in_order =
        sym (append_assoc r.pool.started r.pool.tasks (task ∷ []))
        ∙ ap (λ x. x ++ task ∷ []) v.in_order;
    once = v.once;
    staffed = v.staffed;
    drained = λ h. let (s, e) = v.drained h in cc;
  }

  accepted-Inv :
      (q : ThreadPool) (task : ℕ)
      → (r.pool.stopping ≡ false)
        × (length r.pool.tasks < r.pool.max_pending_tasks)
        × (q ≡ record r.pool { tasks = r.pool.tasks ++ task ∷ [] })
      → Inv (record { pool = q; accepted = r.accepted ++ task ∷ [] })
  accepted-Inv q task (active, room, same) =
      subst (λ x. Inv (record { pool = x; accepted = r.accepted ++ task ∷ [] })) (sym same)
        (added-Inv task active room)

  module _ (before after : List Slot) (e : r.pool.workers ≡ before ++ idle ∷ after) where
    idle_once :
        (a : ℕ)
        → occurrences a r.pool.executed
            + (occurrences a (in_hand before) + occurrences a (in_hand after))
          ≡ occurrences a r.pool.started
    idle_once a =
        let here_ = ap (λ ws. occurrences a (in_hand ws)) e in
        omega (arith, v.once a, here_, occurrences-in_hand a idle before after)

    took-Inv :
        (task : ℕ) (rest : List ℕ)
        → r.pool.tasks ≡ task ∷ rest
        → Inv (record r {
          pool = record r.pool {
            workers = before ++ running task ∷ after;
            tasks = rest;
            started = r.pool.started ++ task ∷ [];
          };
        })
    took-Inv task rest t = record {
      bounded = omega (arith, v.bounded, ap length t);
      in_order = append_assoc r.pool.started (task ∷ []) rest ∙ (rw t at v.in_order);
      once = λ a. omega (
        arith,
        idle_once a,
        occurrences-in_hand a (running task) before after,
        occurrences-append a r.pool.started (task ∷ []),
      );
      staffed = omega (arith, length-append before (running task ∷ after));
      drained = λ h.
          let old = HasReturned-replace (running task) idle before after (λ x. cc) h in
          let (s, none_left) = v.drained (subst HasReturned (sym e) old) in cc;
    }

    left-Inv :
        (slot : Slot)
        → r.pool.tasks ≡ []
        → held slot ≡ []
        → (slot ≡ returned → r.pool.stopping ≡ true)
        → Inv (record r {
          pool = record r.pool {
            workers = before ++ slot ∷ after;
            tasks = [];
            started = r.pool.started ++ held slot;
          };
        })
    left-Inv slot t none_held h = record {
      bounded = omega arith;
      in_order =
          append-nil (r.pool.started ++ held slot)
          ∙ ap (λ x. r.pool.started ++ x) none_held
          ∙ (rw t at v.in_order);
      once = λ a. omega (
        arith,
        idle_once a,
        occurrences-in_hand a slot before after,
        occurrences-append a r.pool.started (held slot),
      );
      staffed = omega (arith, length-append before (slot ∷ after));
      drained = λ g. elim (HasReturned-cases slot idle before after g) [
        | inl gone ↦ (h gone, refl)
        | inr old ↦ ((v.drained (subst HasReturned (sym e) old)).0, refl)
      ];
    }

    take_task-Inv : Inv (record r { pool = take_task r.pool before after })
    unfolding take_task
    take_task-Inv = go r.pool.tasks refl
      where
        go :
            (ts : List ℕ)
            → r.pool.tasks ≡ ts
            → Inv (record r { pool = take_task r.pool before after })
        go [] t = elim (Bool-cases r.pool.stopping) [
          | inl s ↦ rw (section_stop r.pool t s) (left-Inv returned t refl (λ x. s))
          | inr s ↦ rw (section_wait r.pool t s) (left-Inv idle t refl (λ x. cc))
        ]
        go (task ∷ rest) t = rw (section_take r.pool task rest t) (took-Inv task rest t)

  run_task-Inv :
      (before after : List Slot) (task : ℕ)
      → r.pool.workers ≡ before ++ running task ∷ after
      → Inv (record r { pool = run_task r.pool before after task })
  unfolding run_task
  run_task-Inv before after task e = record {
    bounded = v.bounded;
    in_order = v.in_order;
    once = λ a.
        let here_ = ap (λ ws. occurrences a (in_hand ws)) e in
        omega (
          arith,
          v.once a,
          here_,
          occurrences-in_hand a (running task) before after,
          occurrences-in_hand a idle before after,
          occurrences-append a r.pool.executed (task ∷ []),
        );
    staffed = omega (arith, length-append before (idle ∷ after));
    drained = λ h. v.drained (
        subst HasReturned (sym e)
          (HasReturned-replace idle (running task) before after (λ x. cc) h));
  }

in_hand-replicate : (a n : ℕ) → occurrences a (in_hand (replicate n idle)) ≡ 0
in_hand-replicate a zero = refl
in_hand-replicate a (suc n) = in_hand-replicate a n

replicate-HasReturned : (n : ℕ) → ¬ HasReturned (replicate n idle)
replicate-HasReturned (suc n) (inl e) = cc
replicate-HasReturned (suc n) (inr h) = replicate-HasReturned n h
replicate-HasReturned zero h = h

new-ok :
    (available thread_count max_pending : ℕ) (p : ThreadPool)
    → new available thread_count max_pending ≡ ok p
    → p ≡ record {
      workers = replicate thread_count idle;
      tasks = [];
      max_pending_tasks = max_pending;
      stopping = false;
      started = [];
      executed = [];
    }
unfolding new
new-ok available thread_count max_pending p e = ground arith

new-positive :
    (available thread_count max_pending : ℕ) (p : ThreadPool)
    → new available thread_count max_pending ≡ ok p
    → 0 < thread_count
unfolding new
new-positive available thread_count max_pending p e = ground arith

new-Inv :
    (available thread_count max_pending : ℕ) (p : ThreadPool)
    → new available thread_count max_pending ≡ ok p
    → Inv (record { pool = p; accepted = [] })
new-Inv available thread_count max_pending p e =
    rw (new-ok available thread_count max_pending p e) (record {
      bounded = omega arith;
      in_order = refl;
      once = λ a. omega (arith, in_hand-replicate a thread_count);
      staffed = omega (
        arith,
        length-replicate thread_count idle,
        new-positive available thread_count max_pending p e,
      );
      drained = λ h. absurd (replicate-HasReturned thread_count h);
    })

pub WorkerStep-Inv :
    {p q : ThreadPool} (accepted : List ℕ)
    → WorkerStep p q
    → Inv (record { pool = p; accepted = accepted })
    → Inv (record { pool = q; accepted = accepted })
WorkerStep-Inv {p} accepted (takes before after e) v =
    take_task-Inv (record { pool = p; accepted = accepted }) v before after e
WorkerStep-Inv {p} accepted (runs before after task e) v =
    run_task-Inv (record { pool = p; accepted = accepted }) v before after task e

Step-Inv : {r t : Run} → Step r t → Inv r → Inv t
unfolding shut_down
Step-Inv (enqueued {r} {p} task e) v = accepted-Inv r v p task (enqueue-ok r.pool p task e)
Step-Inv (tried {r} {p} task e) v = accepted-Inv r v p task (try_enqueue-true r.pool p task e)
Step-Inv (shut {r}) v = record {
  bounded = v.bounded;
  in_order = v.in_order;
  once = v.once;
  staffed = v.staffed;
  drained = λ h. (refl, (v.drained h).1);
}
Step-Inv (worked {r} s) v = WorkerStep-Inv r.accepted s v

-- In every run from a new pool there is a worker, the queue holds at most its maximum, the tasks
-- that workers took followed by those that wait are the accepted tasks in order, each task was
-- taken as often as it is being run or has been run, and once a worker has returned no task is left
-- in the queue.
pub Reach-Inv :
    (available thread_count max_pending : ℕ) {p : ThreadPool} {r : Run}
    → new available thread_count max_pending ≡ ok p
    → Reach (record { pool = p; accepted = [] }) r
    → Inv r
Reach-Inv available thread_count max_pending {p} e here =
    new-Inv available thread_count max_pending p e
Reach-Inv available thread_count max_pending e (next reach s) =
    Step-Inv s (Reach-Inv available thread_count max_pending e reach)
