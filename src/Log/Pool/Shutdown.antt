-- ===== src/Log/Pool/Shutdown.antt =====
-- log_system/logs_code/ThreadPool.hpp, the destructor: every worker returns, with every task run.
use asyn_log_system_cloud_st.Base.{
  ℕ, zero, suc, ◌+◌, ◌*◌, ◌<◌, ◌≡◌, refl, sym, ap, ◌∙◌, true, inl, inr, ◌⊎◌, List, [], ◌∷◌, ◌++◌,
  length, arith, append-nil, append_assoc,
}
use asyn_log_system_cloud_st.Log.Pool.{
  Slot, idle, returned, running, ThreadPool, take_task, run_task, new, ok,
}
use asyn_log_system_cloud_st.Log.Pool.Steps.{Run, WorkerStep, takes, runs, Reach}
use asyn_log_system_cloud_st.Log.Pool.Invariant.{
  occurrences, in_hand, HasReturned, Inv, section_stop, section_take,
}
use asyn_log_system_cloud_st.Log.Pool.Order.{Reach-Inv, WorkerStep-Inv}

-- How many steps a worker can still make on its own, and the whole pool.
abbrev weight : Slot → ℕ
weight returned = 0
weight idle = 1
weight (running t) = 2

abbrev weights : List Slot → ℕ
weights [] = 0
weights (s ∷ ws) = weight s + weights ws

abbrev pub remaining : ThreadPool → ℕ
remaining p = 2 * length p.tasks + weights p.workers

weights-append :
    (s : Slot) (xs ys : List Slot) → weights (xs ++ s ∷ ys) ≡ weight s + (weights xs + weights ys)
weights-append s [] ys = omega arith
weights-append s (x ∷ xs) ys = omega (arith, weights-append s xs ys)

abbrev pub AllReturned : List Slot → Type 0
AllReturned [] = Unit {0}
AllReturned (s ∷ ws) = (s ≡ returned) × AllReturned ws

take_task-remaining :
    (p : ThreadPool) (before after : List Slot) (ts : List ℕ)
    → p.tasks ≡ ts
    → p.stopping ≡ true
    → p.workers ≡ before ++ idle ∷ after
    → (remaining (take_task p before after) < remaining p)
      × ((take_task p before after).stopping ≡ true)
unfolding take_task
take_task-remaining p before after [] t s e = rw (section_stop p t s) (
  omega (
    arith,
    ap length t,
    ap weights e,
    weights-append idle before after,
    weights-append returned before after,
  ),
  s,
)
take_task-remaining p before after (task ∷ rest) t s e = rw (section_take p task rest t) (
  omega (
    arith,
    ap length t,
    ap weights e,
    weights-append idle before after,
    weights-append (running task) before after,
  ),
  s,
)

run_task-remaining :
    (p : ThreadPool) (before after : List Slot) (task : ℕ)
    → p.workers ≡ before ++ running task ∷ after
    → (remaining (run_task p before after task) < remaining p)
unfolding run_task
run_task-remaining p before after task e = omega (
  arith,
  ap weights e,
  weights-append (running task) before after,
  weights-append idle before after,
)

step_remaining :
    {p q : ThreadPool}
    → WorkerStep p q
    → p.stopping ≡ true
    → (remaining q < remaining p) × (q.stopping ≡ true)
step_remaining {p} (takes before after e) s = take_task-remaining p before after p.tasks refl s e
step_remaining {p} (runs before after task e) s =
    (run_task-remaining p before after task e, unfold run_task in s)

-- As long as some worker has not returned, some worker can make a step.
progress :
    (p : ThreadPool) (before ws : List Slot)
    → p.workers ≡ before ++ ws
    → AllReturned ws ⊎ ((q : ThreadPool) × WorkerStep p q)
progress p before [] e = inl tt
progress p before (idle ∷ ws) e = inr (take_task p before ws, takes before ws e)
progress p before (running t ∷ ws) e = inr (run_task p before ws t, runs before ws t e)
progress p before (returned ∷ ws) e =
    elim (progress p (before ++ returned ∷ []) ws
      (e ∙ sym (append_assoc before (returned ∷ []) ws))) [ inl h ↦ inl (refl, h) | inr q ↦ inr q ]

AllReturned-in_hand : (ws : List Slot) → AllReturned ws → in_hand ws ≡ []
AllReturned-in_hand [] h = refl
AllReturned-in_hand (s ∷ ws) h = rw (h.0, AllReturned-in_hand ws h.1)

-- After a shutdown was requested every step of a worker lowers a number, `remaining`, and leaves
-- the request standing; and as long as some worker has not returned, some worker can make a step.
-- So whatever the order in which the workers run, they all return.
pub WorkerStep-remaining :
    (p : ThreadPool)
    → p.stopping ≡ true
    → ((q : ThreadPool) → WorkerStep p q → (remaining q < remaining p) × (q.stopping ≡ true))
      × (AllReturned p.workers ⊎ ((q : ThreadPool) × WorkerStep p q))
WorkerStep-remaining p s = (step, progress p [] p.workers refl)
  where
    step : (q : ThreadPool) → WorkerStep p q → (remaining q < remaining p) × (q.stopping ≡ true)
    step q w = step_remaining w s

-- Any number of steps of the workers.
pub data Works : ThreadPool → ThreadPool → Type 0 where
  done : {p : ThreadPool} → Works p p
  more : {p q u : ThreadPool} → WorkerStep p q → Works q u → Works p u

finish :
    (fuel : ℕ) (p : ThreadPool) (accepted : List ℕ)
    → remaining p < fuel
    → p.stopping ≡ true
    → Inv (record { pool = p; accepted = accepted })
    → (q : ThreadPool) × Works p q
      × AllReturned q.workers
      × Inv (record { pool = q; accepted = accepted })
finish zero p accepted h s v = elim h [ ]
finish (suc fuel) p accepted h s v = elim (progress p [] p.workers refl) [
  | inl all ↦ (p, done, all, v)
  | inr (q, w) ↦
      let (less, t) = step_remaining w s in
      let (u, ws, all, v') =
        finish fuel q accepted (omega (arith, less)) t (WorkerStep-Inv accepted w v) in
      (u, more w ws, all, v')
]

AllReturned-HasReturned : (ws : List Slot) → 0 < length ws → AllReturned ws → HasReturned ws
AllReturned-HasReturned [] n h = elim n [ ]
AllReturned-HasReturned (s ∷ ws) n h = inl h.0

all_executed :
    (p : ThreadPool) (accepted : List ℕ)
    → AllReturned p.workers
    → Inv (record { pool = p; accepted = accepted })
    → (a : ℕ) → occurrences a p.executed ≡ occurrences a accepted
all_executed p accepted h v a =
    let (s, empty) = v.drained (AllReturned-HasReturned p.workers v.staffed h) in
    let order = rw (empty, append-nil) at v.in_order in
    omega (
      arith,
      v.once a,
      ap (occurrences a) (AllReturned-in_hand p.workers h),
      ap (occurrences a) order,
    )

-- From every state that a run of a new pool reaches with a shutdown requested, the workers can make
-- steps of their own after which all have returned and every accepted task has been run, as often
-- as it was accepted.
pub shut_down-executed :
    (available thread_count max_pending : ℕ) {p : ThreadPool} {r : Run}
    → new available thread_count max_pending ≡ ok p
    → Reach (record { pool = p; accepted = [] }) r
    → r.pool.stopping ≡ true
    → (q : ThreadPool) × Works r.pool q
      × AllReturned q.workers
      × ((a : ℕ) → occurrences a q.executed ≡ occurrences a r.accepted)
shut_down-executed available thread_count max_pending {p} {r} e reach s =
    let v = Reach-Inv available thread_count max_pending e reach in
    let (q, ws, all, v') = finish (suc (remaining r.pool)) r.pool r.accepted (omega arith) s v in
    (q, ws, all, all_executed q r.accepted all v')
