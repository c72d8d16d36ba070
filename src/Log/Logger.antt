-- ===== src/Log/Logger.antt =====
-- log_system/logs_code/AsyncLogger.hpp with Message.hpp and Level.hpp: a logger formats a message,
-- pushes it to its worker and has errors backed up. What vasprintf makes of the arguments, the text
-- that strftime makes of the time, the thread's id and the results of backup::Start are arguments.
pub mod Steps
pub mod Ledger
pub mod Delivered
pub mod Calls
use asyn_log_system_cloud_st.Base.{
  ℕ, Bool, true, false, not, Option, none, some, List, [], ◌∷◌, ◌++◌, Bytes, codes, map, is_empty,
  if◌then◌else◌, add64,
}
use asyn_log_system_cloud_st.Base.Decimal.{to_string}
use asyn_log_system_cloud_st.Log.Buffer.{BufferConfig, bytes, Error}
use asyn_log_system_cloud_st.Log.Worker.{AsyncType, async_safe, Worker}
use asyn_log_system_cloud_st.Log.Worker
use asyn_log_system_cloud_st.Log.Pool.{ThreadPool, try_enqueue}
use asyn_log_system_cloud_st.Log.Settings.{JsonData}

pub data Level : Type 0 where
  debug info warn error fatal : Level

unfoldable pub level_name : Level → Bytes
level_name debug = codes "DEBUG"
level_name info = codes "INFO"
level_name warn = codes "WARN"
level_name error = codes "ERROR"
level_name fatal = codes "FATAL"

-- `created_at` and `thread_id` are the texts that the stream gets of them.
pub record LogMessage : Type 0 where
  pub line : ℕ
  pub created_at : Bytes
  pub file_name : Bytes
  pub logger_name : Bytes
  pub payload : Bytes
  pub thread_id : Bytes
  pub level : Level

unfoldable pub format : LogMessage → Bytes
unfolding level_name
format m =
    b'['
    ∷ (m.created_at
        ++ (codes "]["
            ++ (m.thread_id
                ++ (codes "]["
                    ++ (level_name m.level
                        ++ (codes "]["
                            ++ (m.logger_name
                                ++ (codes "]["
                                    ++ (m.file_name
                                        ++ (b':'
                                            ∷ (to_string m.line
                                                ++ (codes "]\t"
                                                    ++ (m.payload ++ b'\n' ∷ [])))))))))))))

pub record AsyncLogger : Type 0 where
  pub logger_name : Bytes
  pub worker : Worker
  pub remote_backup_failures : ℕ
  pub remote_backup_drops : ℕ

-- A call of Log that returns leaves the logger and the pool; a push may wait, or throw.
pub data LogResult : Type 0 where
  blocked : LogResult
  thrown : Error → LogResult
  returned : AsyncLogger → Option ThreadPool → LogResult

-- `if (!backup::Start(data)) failures->fetch_add(1)`: in Serialize for FATAL, and in the pool's
-- task for ERROR.
unfoldable pub count_backup : Bool → AsyncLogger → AsyncLogger
count_backup started logger =
    if not started
    then record logger { remote_backup_failures = add64 logger.remote_backup_failures 1 }
    else logger

unfoldable pub count_drop : AsyncLogger → AsyncLogger
count_drop logger = record logger { remote_backup_drops = add64 logger.remote_backup_drops 1 }

-- `g_conf_data != nullptr && g_conf_data->backup_enabled`.
unfoldable pub backup_enabled : Option JsonData → Bool
backup_enabled none = false
backup_enabled (some conf) = conf.backup_enabled

unfoldable pub after_enqueue : AsyncLogger → ThreadPool × Bool → LogResult
unfolding count_drop
after_enqueue logger (pool, queued) =
    if not queued then returned (count_drop logger) (some pool) else returned logger (some pool)

-- The backup of an accepted ERROR; `task` names the function that is handed to the pool `tp`.
unfoldable pub enqueue_backup : Option ThreadPool → ℕ → AsyncLogger → LogResult
unfolding after_enqueue count_drop
enqueue_backup none task logger = returned (count_drop logger) none
enqueue_backup (some pool) task logger = after_enqueue logger (try_enqueue pool task)

-- From the push that was accepted on. `started` is what Start returns for a FATAL.
unfoldable pub back_up :
    Option JsonData → Option ThreadPool → ℕ → Bool → Level → AsyncLogger → LogResult
unfolding count_backup backup_enabled enqueue_backup
back_up conf tp task started fatal logger = returned (count_backup started logger) tp
back_up conf tp task started error logger =
    if backup_enabled conf then enqueue_backup tp task logger else returned logger tp
back_up conf tp task started debug logger = returned logger tp
back_up conf tp task started info logger = returned logger tp
back_up conf tp task started warn logger = returned logger tp

-- What the result of the push leads to.
unfoldable pub after_push :
    Option JsonData
    → Option ThreadPool
    → ℕ
    → Bool
    → Level
    → AsyncLogger
    → Worker.PushResult
    → LogResult
unfolding back_up
after_push conf tp task started level logger Worker.blocked = blocked
after_push conf tp task started level logger (Worker.thrown e) = thrown e
after_push conf tp task started level logger (Worker.returned w accepted) =
    if not accepted
    then returned (record logger { worker = w }) tp
    else back_up conf tp task started level (record logger { worker = w })

unfoldable pub serialize :
    BufferConfig
    → Option JsonData
    → Option ThreadPool
    → ℕ
    → Bool
    → LogMessage
    → AsyncLogger
    → LogResult
unfolding format after_push
serialize c conf tp task started message logger =
    after_push conf tp task started message.level logger
      (Worker.push c logger.worker (bytes (format message)))

-- A call of Log: the place it comes from, the time and the thread.
pub record LogCall : Type 0 where
  pub level : Level
  pub file : Option Bytes
  pub line : ℕ
  pub formatted : Option Bytes
  pub created_at : Bytes
  pub thread_id : Bytes

-- `formatted` is what vasprintf makes, `none` for a null format or a failure.
unfoldable pub log :
    BufferConfig
    → Option JsonData
    → Option ThreadPool
    → ℕ
    → Bool
    → LogCall
    → AsyncLogger
    → LogResult
unfolding serialize
log c conf tp task started call logger = elim call.formatted [
  | none ↦ returned logger tp
  | some payload ↦
      serialize c conf tp task started
        (record {
          line = call.line;
          created_at = call.created_at;
          file_name = elim call.file [ none ↦ codes "unknown" | some file ↦ file ];
          logger_name = logger.logger_name;
          payload = payload;
          thread_id = call.thread_id;
          level = call.level;
        })
        logger
]

unfoldable pub stop : AsyncLogger → AsyncLogger
unfolding Worker.stop
stop logger = record logger { worker = Worker.stop logger.worker }

-- RealFlush: every flusher gets the chunk, in order.
unfoldable pub real_flush {ℓ} : {F : Type ℓ} → (F → Bytes → F) → List F → Bytes → List F
real_flush flush flushers chunk = map (λ flusher. flush flusher chunk) flushers

pub record LoggerBuilder (F : Type 0) : Type 0 where
  pub logger_name : Bytes
  pub flushers : List F
  pub async_type : AsyncType

-- What Build hands to the logger's constructor; `none` is the exception. `stdout_flush` is a new
-- StdoutFlush.
unfoldable pub build : {F : Type 0} → F → LoggerBuilder F → Option (Bytes × List F × AsyncType)
build stdout_flush b =
    if is_empty b.logger_name
    then none
    else if is_empty b.flushers
    then some (b.logger_name, stdout_flush ∷ [], b.async_type)
    else some (b.logger_name, b.flushers, b.async_type)
