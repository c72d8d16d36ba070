-- ===== src/Log/Manager.antt =====
-- log_system/logs_code/Manager.hpp and MyLog.hpp: the table of loggers. A shared pointer is the
-- number of a logger, `none` a null pointer; the loggers themselves are a map of numbers. The mutex
-- makes each operation one step.
pub mod Shutdown
use asyn_log_system_cloud_st.Base.{
  ℕ, Bool, true, false, Option, none, some, List, [], ◌∷◌, Bytes, codes, ◌==◌, if◌then◌else◌,
  is_some,
}
use asyn_log_system_cloud_st.Base.Maps.{lookup, assign}
use asyn_log_system_cloud_st.Log.Logger.{AsyncLogger}
use asyn_log_system_cloud_st.Log.Logger

abbrev pub Loggers : Type 0
Loggers = ℕ → AsyncLogger

pub record LoggerManager : Type 0 where
  pub default_logger : Option ℕ
  pub loggers : List (Bytes × ℕ)

-- `emplace`: the entry stays as it is where there is one.
unfoldable pub emplace : Bytes → ℕ → List (Bytes × ℕ) → List (Bytes × ℕ) × Bool
emplace name logger table =
    if is_some (lookup name table) then (table, false) else (assign name logger table, true)

-- The constructor, with the number of the logger that it builds.
unfoldable pub new_manager : ℕ → LoggerManager
unfolding emplace
new_manager built = record {
  default_logger = some built;
  loggers = (emplace (codes "default") built []).0;
}

unfoldable pub add_logger : Loggers → Option ℕ → LoggerManager → LoggerManager × Bool
unfolding emplace
add_logger heap none m = (m, false)
add_logger heap (some logger) m =
    let (table, added) = emplace (heap logger).logger_name logger m.loggers in
    (record m { loggers = table }, added)

unfoldable pub get_logger : LoggerManager → Bytes → Option ℕ
get_logger m name = elim (lookup name m.loggers) [
  | none ↦ m.default_logger
  | some logger ↦ some logger
]

unfoldable pub default_logger_of : LoggerManager → Option ℕ
default_logger_of m = m.default_logger

-- `Stop` of one logger.
unfoldable pub stop_logger : ℕ → Loggers → Loggers
unfolding Logger.stop
stop_logger logger heap = λ k. if k == logger then Logger.stop (heap k) else heap k

-- The loop over the table that was swapped out.
unfoldable pub stop_all : List (Bytes × ℕ) → Loggers → Loggers
unfolding stop_logger
stop_all [] heap = heap
stop_all ((name, logger) ∷ table) heap = stop_all table (stop_logger logger heap)

unfoldable pub shutdown : LoggerManager → Loggers → LoggerManager × Loggers
unfolding stop_all
shutdown m heap = (record m { default_logger = none; loggers = [] }, stop_all m.loggers heap)
