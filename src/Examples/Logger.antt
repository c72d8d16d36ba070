-- ===== src/Examples/Logger.antt =====
-- log_system/logs_code/AsyncLogger.hpp and Manager.hpp: the theorems at concrete inputs.
use asyn_log_system_cloud_st.Base.{
  ℕ, ◌+◌, ◌≡◌, refl, true, false, none, some, [], ◌∷◌, ◌++◌, Bytes, codes, bytes_eq, drop, length,
  replicate, map, add64, sub64, arith,
}
use asyn_log_system_cloud_st.Base.Decimal.{to_string}
use asyn_log_system_cloud_st.Base.Maps.{lookup, assign}
use asyn_log_system_cloud_st.Log.Buffer.{
  BufferConfig, Buffer, bytes, ensure_writable, writeable_size, is_empty, append, write_at,
}
use asyn_log_system_cloud_st.Log.Buffer
use asyn_log_system_cloud_st.Log.Worker.{Worker, async_safe, finished}
use asyn_log_system_cloud_st.Log.Worker
use asyn_log_system_cloud_st.Log.Worker.Drain.{thread_run}
use asyn_log_system_cloud_st.Log.Pool.{ThreadPool, idle}
use asyn_log_system_cloud_st.Log.Sink.Rolled.{written}
use asyn_log_system_cloud_st.Log.Logger.{
  fatal, LogMessage, level_name, format, AsyncLogger, count_backup, backup_enabled,
}
use asyn_log_system_cloud_st.Log.Logger.Steps.{
  Run, Reach, here, next, pushed, started, counted, underway,
}
use asyn_log_system_cloud_st.Log.Logger.Ledger.{Reach-IsBalanced}
use asyn_log_system_cloud_st.Log.Logger.Delivered.{flush_all, thread_run-written}
use asyn_log_system_cloud_st.Backup.Client.{AttemptEvents, refused, start}
use asyn_log_system_cloud_st.Log.FileFlush.{Moment}
use asyn_log_system_cloud_st.Log.FileFlush.Names.{filenames, AllDiffer, filenames-AllDiffer}
use asyn_log_system_cloud_st.Log.Manager.{
  Loggers, new_manager, emplace, add_logger, get_logger, shutdown,
}
use asyn_log_system_cloud_st.Log.Manager.Shutdown.{IsStopped, Added, shutdown-add_logger}
use asyn_log_system_cloud_st.Log.Manager.Shutdown
use asyn_log_system_cloud_st.Examples.Log.{
  small, small-IsConfig, fresh, new_runs, stopped_run, stopped_run-Reach,
}
use asyn_log_system_cloud_st.Examples.Sinks.{
  calls, ones, slow-Progresses, nearly_full, nearly_full-Tracks,
}

abbrev large : Buffer
large = record { buffer = replicate 32 0; write_pos = 0; read_pos = 0 }

abbrev logger : AsyncLogger
logger = record {
  logger_name = codes "l";
  worker = Worker.start async_safe large fresh;
  remote_backup_failures = 0;
  remote_backup_drops = 0;
}

abbrev message : LogMessage
message = record {
  line = 7;
  created_at = codes "now";
  file_name = codes "f";
  logger_name = codes "l";
  payload = codes "hi";
  thread_id = codes "1";
  level = fatal;
}

abbrev text : Bytes
text = codes "[now][1][FATAL][l][f:7]\thi\n"

formats : format message ≡ text
unfolding format level_name to_string
formats = refl

abbrev pushed_worker : Worker
pushed_worker = record logger.worker {
  producer = record {
    buffer = text ++ drop (length text) (replicate 32 0);
    write_pos = 27;
    read_pos = 0;
  };
}

pushes :
    Worker.push small logger.worker (bytes (format message)) ≡ Worker.returned pushed_worker true
unfolding format level_name to_string Worker.push Worker.may_push Buffer.push ensure_writable
    writeable_size is_empty sub64 append write_at add64
pushes = refl

abbrev logged_logger : AsyncLogger
logged_logger = record logger { worker = pushed_worker; remote_backup_failures = 1 }

-- One backup waits in the pool.
abbrev busy : ThreadPool
busy = record {
  workers = idle ∷ [];
  tasks = 3 ∷ [];
  max_pending_tasks = 2;
  stopping = false;
  started = [];
  executed = [];
}

abbrev no_attempts : ℕ → AttemptEvents
no_attempts = λ k. record {
  socket_made = false;
  timeout_set = false;
  connecting = record {
    flags_read = false;
    nonblock_set = false;
    connect = refused;
    polls = [];
    socket_error = none;
    flags_restored = false;
  };
  sends = [];
}

abbrev first_run : Run
first_run = record {
  logger = logger;
  pool = some busy;
  starting = [];
  enqueuing = [];
  dropping = 0;
  sent = 0;
  due = 1;
}

-- A FATAL was pushed, and its Start has failed.
abbrev second_run : Run
second_run = record first_run { logger = logged_logger; due = 2 }

starts : (start (some ones) false no_attempts text).0 ≡ false
unfolding start
starts = refl

pushed_run-Reach :
    Reach small
      (some ones)
      (λ k. text)
      first_run
      (record first_run {
        logger = record logger { worker = pushed_worker };
        starting = text ∷ [];
        due = 2;
      })
unfolding format level_name to_string backup_enabled
pushed_run-Reach = next here (pushed message true pushes)

second_run-Reach : Reach small (some ones) (λ k. text) first_run second_run
unfolding start count_backup add64 backup_enabled
second_run-Reach = next pushed_run-Reach (started [] [] text false no_attempts refl)

Reach-IsBalanced_example : 0 + counted second_run + underway second_run ≡ 2
Reach-IsBalanced_example =
    Reach-IsBalanced small (some ones) (λ k. text) enabled first_run refl second_run-Reach
      (omega arith)
  where
    enabled : backup_enabled (some ones) ≡ true
    enabled = unfold backup_enabled in refl

thread_run-written_example :
    ((thread_run 4 stopped_run.worker).phase ≡ finished)
    × (map written (flush_all calls (nearly_full ∷ []) (thread_run 4 stopped_run.worker).delivered)
        ≡ codes "abab" ∷ [])
thread_run-written_example =
    thread_run-written calls slow-Progresses refl refl small async_safe fresh fresh
      (nearly_full ∷ []) small-IsConfig new_runs new_runs stopped_run-Reach refl
      ((nearly_full-Tracks, omega arith), tt)

abbrev two_loggers : Loggers
two_loggers = λ k. logger

adds : (add_logger two_loggers (some 1) (new_manager 0)).1 ≡ true
unfolding add_logger emplace new_manager lookup assign bytes_eq
adds = refl

shutdown-add_logger_example :
    (get_logger (add_logger two_loggers (some 1) (new_manager 0)).0 (codes "l") ≡ some 1)
    × IsStopped (shutdown (add_logger two_loggers (some 1) (new_manager 0)).0 two_loggers).1 1
    × (get_logger
          (shutdown (add_logger two_loggers (some 1) (new_manager 0)).0 two_loggers).0
          (codes "default")
        ≡ none)
shutdown-add_logger_example =
    shutdown-add_logger two_loggers (new_manager 0) 1 (codes "default") adds Shutdown.here

abbrev moment : Moment
moment = record { timestamp = codes "20240101-000000"; micros = 7; pid = 9 }

filenames-AllDiffer_example : AllDiffer (filenames (codes "log") (moment ∷ moment ∷ []) 1)
filenames-AllDiffer_example =
    filenames-AllDiffer (codes "log") (moment ∷ moment ∷ []) 1 (omega arith)
