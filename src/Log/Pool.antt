-- ===== src/Log/Pool.antt =====
-- log_system/logs_code/ThreadPool.hpp: the task queue and its workers. A task is a number that
-- names it. Each section under the mutex is one step, and so is the run of a task; any number of
-- callers enqueue in any order.
pub mod Steps
pub mod Invariant
pub mod Order
pub mod Shutdown
use asyn_log_system_cloud_st.Base.{
  ℕ, Bool, true, false, not, ◌&&◌, ◌||◌, List, [], ◌∷◌, ◌++◌, length, replicate, is_empty, ltb, leb,
  ◌==◌, if◌then◌else◌,
}

-- A worker: at its wait, running a task, or returned.
pub data Slot : Type 0 where
  idle returned : Slot
  running : ℕ → Slot

-- The task of a worker that runs one.
abbrev pub held : Slot → List ℕ
held (running task) = task ∷ []
held idle = []
held returned = []

-- `started` and `executed` record the tasks in the order in which workers took and finished them.
pub record ThreadPool : Type 0 where
  pub workers : List Slot
  pub tasks : List ℕ
  pub max_pending_tasks : ℕ
  pub stopping : Bool
  pub started : List ℕ
  pub executed : List ℕ

-- The exceptions; `terminated` is the end of the program, where a vector of threads that run is
-- destroyed.
pub data Error : Type 0 where
  invalid_argument length_error system_error terminated enqueue_on_stopped : Error

pub data Result {ℓ} (A : Type ℓ) : Type ℓ where
  ok : A → Result A
  err : Error → Result A
  blocked : Result A

-- `max_size()` of a vector of threads, each of eight bytes.
abbrev pub max_threads : ℕ
max_threads = 1152921504606846975

-- `available` is how many threads the system can start.
unfoldable pub new : ℕ → ℕ → ℕ → Result ThreadPool
new available thread_count max_pending_tasks =
    if thread_count == 0
    then err invalid_argument
    else if max_pending_tasks == 0
    then err invalid_argument
    else if ltb max_threads thread_count
    then err length_error
    else if ltb available thread_count
    then err (if available == 0 then system_error else terminated)
    else ok (record {
      workers = replicate thread_count idle;
      tasks = [];
      max_pending_tasks = max_pending_tasks;
      stopping = false;
      started = [];
      executed = [];
    })

-- One passage of the locked section of `Enqueue`; `blocked` is a wait that goes on.
unfoldable pub enqueue : ThreadPool → ℕ → Result ThreadPool
enqueue p task =
    if not (p.stopping || ltb (length p.tasks) p.max_pending_tasks)
    then blocked
    else if p.stopping
    then err enqueue_on_stopped
    else ok (record p { tasks = p.tasks ++ task ∷ [] })

unfoldable pub try_enqueue : ThreadPool → ℕ → ThreadPool × Bool
try_enqueue p task =
    if p.stopping || leb p.max_pending_tasks (length p.tasks)
    then (p, false)
    else (record p { tasks = p.tasks ++ task ∷ [] }, true)

-- The destructor, up to the joins.
unfoldable pub shut_down : ThreadPool → ThreadPool
shut_down p = record p { stopping = true }

-- The locked section of `WorkerLoop` for one worker at its wait: it stays there, it returns, or it
-- moves the front task out of the queue.
unfoldable pub worker_section : ThreadPool → Slot × List ℕ
worker_section p = elim p.tasks [
  | [] ↦ if p.stopping then (returned, []) else (idle, [])
  | task ∷ rest ↦ (running task, rest)
]

-- The worker between `before` and `after` passes its locked section.
unfoldable pub take_task : ThreadPool → List Slot → List Slot → ThreadPool
take_task p before after =
    let (slot, rest) = worker_section p in
    record p { workers = before ++ slot ∷ after; tasks = rest; started = p.started ++ held slot }

-- `task()` in the worker between `before` and `after`.
unfoldable pub run_task : ThreadPool → List Slot → List Slot → ℕ → ThreadPool
run_task p before after task = record p {
  workers = before ++ idle ∷ after;
  executed = p.executed ++ task ∷ [];
}
