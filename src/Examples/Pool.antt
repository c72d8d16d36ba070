-- ===== src/Examples/Pool.antt =====
-- log_system/logs_code/ThreadPool.hpp: the theorems on concrete runs.
use asyn_log_system_cloud_st.Base.{ℕ, ◌≡◌, refl, true, false, [], ◌∷◌}
use asyn_log_system_cloud_st.Log.Pool.{ThreadPool, idle, ok, new, enqueue, shut_down}
use asyn_log_system_cloud_st.Log.Pool.Steps.{Run, enqueued, shut, Reach, here, next}
use asyn_log_system_cloud_st.Log.Pool.Invariant.{Inv, occurrences}
use asyn_log_system_cloud_st.Log.Pool.Order.{Reach-Inv}
use asyn_log_system_cloud_st.Log.Pool.Shutdown.{AllReturned, Works, shut_down-executed}

abbrev one_worker : ThreadPool
one_worker = record {
  workers = idle ∷ [];
  tasks = [];
  max_pending_tasks = 2;
  stopping = false;
  started = [];
  executed = [];
}

abbrev with_task : ThreadPool
with_task = record one_worker { tasks = 7 ∷ [] }

abbrev closing : ThreadPool
closing = record with_task { stopping = true }

abbrev closing_run : Run
closing_run = record { pool = closing; accepted = 7 ∷ [] }

new_runs : new 4 1 2 ≡ ok one_worker
unfolding new
new_runs = refl

enqueue_runs : enqueue one_worker 7 ≡ ok with_task
unfolding enqueue
enqueue_runs = refl

closing_run-Reach : Reach (record { pool = one_worker; accepted = [] }) closing_run
unfolding shut_down
closing_run-Reach = next (next here (enqueued 7 enqueue_runs)) shut

Reach-Inv_example : Inv closing_run
Reach-Inv_example = Reach-Inv 4 1 2 new_runs closing_run-Reach

shut_down-executed_example :
    (q : ThreadPool) × Works closing q
    × AllReturned q.workers
    × ((a : ℕ) → occurrences a q.executed ≡ occurrences a (7 ∷ []))
shut_down-executed_example = shut_down-executed 4 1 2 new_runs closing_run-Reach refl
