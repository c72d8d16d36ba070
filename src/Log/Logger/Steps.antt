-- ===== src/Log/Logger/Steps.antt =====
-- log_system/logs_code/AsyncLogger.hpp: Serialize in many threads and the pool's work as steps, and
-- the backups that are on their way.
use asyn_log_system_cloud_st.Base.{
  ℕ, ◌+◌, ◌≡◌, refl, ap, Bool, true, false, not, ◌&&◌, Option, none, some, List, [], ◌∷◌, ◌++◌,
  Bytes, length, length-append, arith,
}
use asyn_log_system_cloud_st.Log.Buffer.{BufferConfig, bytes}
use asyn_log_system_cloud_st.Log.Worker.{Worker}
use asyn_log_system_cloud_st.Log.Worker
use asyn_log_system_cloud_st.Log.Pool.{
  ThreadPool, Slot, idle, running, held, try_enqueue, shut_down, take_task, run_task,
  worker_section,
}
use asyn_log_system_cloud_st.Log.Pool.Invariant.{in_hand}
use asyn_log_system_cloud_st.Log.Settings.{JsonData}
use asyn_log_system_cloud_st.Log.Logger.{
  Level, debug, info, warn, error, fatal, LogMessage, format, AsyncLogger, count_backup, count_drop,
  backup_enabled,
}
use asyn_log_system_cloud_st.Backup.Client.{AttemptEvents, start}

abbrev pub is_fatal : Level → Bool
is_fatal fatal = true
is_fatal error = false
is_fatal debug = false
is_fatal info = false
is_fatal warn = false

abbrev pub is_error : Level → Bool
is_error error = true
is_error fatal = false
is_error debug = false
is_error info = false
is_error warn = false

abbrev pub count : Bool → ℕ
count true = 1
count false = 0

abbrev pub only : Bool → Bytes → List Bytes
only true text = text ∷ []
only false text = []

-- A logger, the pool that it alone uses, and the threads that are behind their push: `starting` are
-- the texts of accepted FATAL messages whose Start has not returned, `enqueuing` the ones of
-- accepted ERROR messages not yet handed to the pool, and `dropping` is how many threads are about
-- to count a drop. `due` counts the accepted FATAL and ERROR messages, and `sent` the backups for
-- which Start returned true while backups are enabled.
pub record Run : Type 0 where
  pub logger : AsyncLogger
  pub pool : Option ThreadPool
  pub starting : List Bytes
  pub enqueuing : List Bytes
  pub dropping : ℕ
  pub sent : ℕ
  pub due : ℕ

-- What the threads share is the worker, the pool and the counters, and each step is one access to
-- them: the push, TryEnqueue, and a fetch_add with what Start returned before it. Start reads only
-- the configuration. The pool's task `k` backs up the text `data_of k`. The log thread may change
-- the worker in any way.
pub data Step (c : BufferConfig) (conf : Option JsonData) (data_of : ℕ → Bytes)
    : Run → Run → Type 0 where
  pushed :
      {r : Run} {w : Worker} (message : LogMessage) (accepted : Bool)
      → Worker.push c r.logger.worker (bytes (format message)) ≡ Worker.returned w accepted
      → Step c conf data_of r (record r {
        logger = record r.logger { worker = w };
        starting = r.starting ++ only (accepted && is_fatal message.level) (format message);
        enqueuing =
            r.enqueuing
            ++ only (accepted && (is_error message.level && backup_enabled conf)) (format message);
        due =
            r.due
            + count (accepted && is_fatal message.level)
            + count (accepted && is_error message.level);
      })
  started :
      {r : Run} (before after : List Bytes) (text : Bytes) (address_valid : Bool)
      (events : ℕ → AttemptEvents)
      → r.starting ≡ before ++ text ∷ after
      → Step c conf data_of r (record r {
        logger = count_backup (start conf address_valid events text).0 r.logger;
        starting = before ++ after;
        sent = r.sent + count (backup_enabled conf && (start conf address_valid events text).0);
      })
  enqueued :
      {r : Run} {p q : ThreadPool} (before after : List Bytes) (text : Bytes) (task : ℕ)
      (taken : Bool)
      → r.enqueuing ≡ before ++ text ∷ after
      → data_of task ≡ text
      → r.pool ≡ some p
      → try_enqueue p task ≡ (q, taken)
      → Step c conf data_of r (record r {
        pool = some q;
        enqueuing = before ++ after;
        dropping = r.dropping + count (not taken);
      })
  unavailable :
      {r : Run} (before after : List Bytes) (text : Bytes)
      → r.enqueuing ≡ before ++ text ∷ after
      → r.pool ≡ none
      → Step c conf data_of r (record r { enqueuing = before ++ after; dropping = r.dropping + 1 })
  dropped :
      {r : Run} (n : ℕ)
      → r.dropping ≡ n + 1
      → Step c conf data_of r (record r { logger = count_drop r.logger; dropping = n })
  changed :
      {r : Run} (w : Worker)
      → Step c conf data_of r (record r { logger = record r.logger { worker = w } })
  took :
      {r : Run} {p : ThreadPool} (before after : List Slot)
      → r.pool ≡ some p
      → p.workers ≡ before ++ idle ∷ after
      → Step c conf data_of r (record r { pool = some (take_task p before after) })
  ran :
      {r : Run} {p : ThreadPool} (before after : List Slot) (task : ℕ) (address_valid : Bool)
      (events : ℕ → AttemptEvents)
      → r.pool ≡ some p
      → p.workers ≡ before ++ running task ∷ after
      → Step c conf data_of r (record r {
        logger = count_backup (start conf address_valid events (data_of task)).0 r.logger;
        pool = some (run_task p before after task);
        sent =
            r.sent
            + count (backup_enabled conf && (start conf address_valid events (data_of task)).0);
      })
  shut :
      {r : Run} {p : ThreadPool}
      → r.pool ≡ some p
      → Step c conf data_of r (record r { pool = some (shut_down p) })

pub data Reach (c : BufferConfig) (conf : Option JsonData) (data_of : ℕ → Bytes) (s : Run)
    : Run → Type 0 where
  here : Reach c conf data_of s s
  next : {r t : Run} → Reach c conf data_of s r → Step c conf data_of r t → Reach c conf data_of s t

-- The backups that the pool holds: in its queue, and with its workers.
abbrev pub waiting : Option ThreadPool → ℕ
waiting none = 0
waiting (some p) = length p.tasks + length (in_hand p.workers)

-- The ones that threads are busy with, and the ones that are counted or wait.
abbrev pub underway : Run → ℕ
underway r = length r.starting + length r.enqueuing + r.dropping

abbrev pub counted : Run → ℕ
counted r = r.logger.remote_backup_failures + r.logger.remote_backup_drops + waiting r.pool

abbrev pub IsBalanced : Run → Type 0
IsBalanced r = r.sent + counted r + underway r ≡ r.due

length-in_hand :
    (s : Slot) (xs ys : List Slot)
    → length (in_hand (xs ++ s ∷ ys))
      ≡ length (held s) + (length (in_hand xs) + length (in_hand ys))
length-in_hand s [] ys = omega (arith, length-append (held s) (in_hand ys))
length-in_hand s (x ∷ xs) ys = omega (
  arith,
  length-append (held x) (in_hand (xs ++ s ∷ ys)),
  length-append (held x) (in_hand xs),
  length-in_hand s xs ys,
)

section_lem :
    (p : ThreadPool)
    → length (held (worker_section p).0) + length (worker_section p).1 ≡ length p.tasks
unfolding worker_section
section_lem p = go p.tasks refl
  where
    go :
        (tasks : List ℕ)
        → p.tasks ≡ tasks
        → length (held (worker_section p).0) + length (worker_section p).1 ≡ length p.tasks
    go [] e = ground arith
    go (task ∷ rest) e = ground arith

pub waiting-take_task :
    (p : ThreadPool) (before after : List Slot)
    → p.workers ≡ before ++ idle ∷ after
    → waiting (some (take_task p before after)) ≡ waiting (some p)
unfolding take_task
waiting-take_task p before after e = omega (
  arith,
  section_lem p,
  length-in_hand (worker_section p).0 before after,
  ap (λ ws. length (in_hand ws)) e,
  length-in_hand idle before after,
)

pub waiting-run_task :
    (p : ThreadPool) (before after : List Slot) (task : ℕ)
    → p.workers ≡ before ++ running task ∷ after
    → waiting (some (run_task p before after task)) + 1 ≡ waiting (some p)
unfolding run_task
waiting-run_task p before after task e = omega (
  arith,
  length-in_hand idle before after,
  ap (λ ws. length (in_hand ws)) e,
  length-in_hand (running task) before after,
)

pub waiting-shut_down : (p : ThreadPool) → waiting (some (shut_down p)) ≡ waiting (some p)
unfolding shut_down
waiting-shut_down p = refl
