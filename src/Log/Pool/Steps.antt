-- ===== src/Log/Pool/Steps.antt =====
-- log_system/logs_code/ThreadPool.hpp: the runs of the pool.
use asyn_log_system_cloud_st.Base.{ℕ, ◌≡◌, true, List, [], ◌∷◌, ◌++◌}
use asyn_log_system_cloud_st.Log.Pool.{
  Slot, idle, running, ThreadPool, ok, enqueue, try_enqueue, shut_down, take_task, run_task,
}

-- A run's state: the pool, the tasks that were accepted, and those that a worker has taken.
pub record Run : Type 0 where
  pub pool : ThreadPool
  pub accepted : List ℕ

-- The steps of a worker.
pub data WorkerStep : ThreadPool → ThreadPool → Type 0 where
  takes :
      {p : ThreadPool} (before after : List Slot)
      → p.workers ≡ before ++ idle ∷ after
      → WorkerStep p (take_task p before after)
  runs :
      {p : ThreadPool} (before after : List Slot) (task : ℕ)
      → p.workers ≡ before ++ running task ∷ after
      → WorkerStep p (run_task p before after task)

pub data Step : Run → Run → Type 0 where
  enqueued :
      {r : Run} {p : ThreadPool} (task : ℕ)
      → enqueue r.pool task ≡ ok p
      → Step r (record { pool = p; accepted = r.accepted ++ task ∷ [] })
  tried :
      {r : Run} {p : ThreadPool} (task : ℕ)
      → try_enqueue r.pool task ≡ (p, true)
      → Step r (record { pool = p; accepted = r.accepted ++ task ∷ [] })
  shut : {r : Run} → Step r (record r { pool = shut_down r.pool })
  worked : {r : Run} {p : ThreadPool} → WorkerStep r.pool p → Step r (record r { pool = p })

pub data Reach (s : Run) : Run → Type 0 where
  here : Reach s s
  next : {r t : Run} → Reach s r → Step r t → Reach s t
