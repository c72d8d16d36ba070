-- ===== src/Log/Manager/Shutdown.antt =====
-- log_system/logs_code/Manager.hpp: a logger that was added is found, and is stopped at the end.
use asyn_log_system_cloud_st.Base.{
  ℕ, ◌≡◌, ◌⊎◌, refl, true, Option, none, some, List, [], ◌∷◌, Bytes, bytes_eq, bytes_eq_iff, ◌==◌,
  Bool-cases, inl, inr, arith,
}
use asyn_log_system_cloud_st.Base.Maps.{lookup, lookup-assign}
use asyn_log_system_cloud_st.Log.Logger.{AsyncLogger}
use asyn_log_system_cloud_st.Log.Logger
use asyn_log_system_cloud_st.Log.Manager.{
  Loggers, LoggerManager, emplace, add_logger, get_logger, stop_logger, stop_all, shutdown,
}

abbrev pub IsStopped : Loggers → ℕ → Type 0
IsStopped heap k = (heap k).worker.stopping ≡ true

stop_logger-IsStopped :
    (k logger : ℕ) (heap : Loggers)
    → (k ≡ logger) ⊎ IsStopped heap k
    → IsStopped (stop_logger logger heap) k
unfolding stop_logger Logger.stop
stop_logger-IsStopped k logger heap h = elim (Bool-cases (k == logger)) [
  | inl e ↦ rw e refl
  | inr e ↦ elim h [ inl same ↦ absurd (ground arith) | inr stopped ↦ rw e stopped ]
]

stop_all-stays :
    (k : ℕ) (table : List (Bytes × ℕ)) (heap : Loggers)
    → IsStopped heap k
    → IsStopped (stop_all table heap) k
unfolding stop_all
stop_all-stays k [] heap h = h
stop_all-stays k ((name, logger) ∷ table) heap h =
    stop_all-stays k table (stop_logger logger heap) (stop_logger-IsStopped k logger heap (inr h))

stop_all-IsStopped :
    (name : Bytes) (k : ℕ) (table : List (Bytes × ℕ)) (heap : Loggers)
    → lookup name table ≡ some k
    → IsStopped (stop_all table heap) k
unfolding stop_all lookup
stop_all-IsStopped name k [] heap e = absurd cc
stop_all-IsStopped name k ((n, logger) ∷ table) heap e = elim (Bool-cases (bytes_eq n name)) [
  | inl hit ↦
      let same : k ≡ logger = ground (arith, e, hit) in
      stop_all-stays k table (stop_logger logger heap)
        (stop_logger-IsStopped k logger heap (inl same))
  | inr miss ↦ stop_all-IsStopped name k table (stop_logger logger heap) (ground (arith, e, miss))
]

-- The managers that calls of AddLogger lead to.
pub data Added (heap : Loggers) (s : LoggerManager) : LoggerManager → Type 0 where
  here : Added heap s s
  next :
      {m : LoggerManager} (logger : Option ℕ)
      → Added heap s m
      → Added heap s (add_logger heap logger m).0

-- An entry stays what it is.
add_logger-lookup :
    (heap : Loggers) (logger : Option ℕ) (m : LoggerManager) (name : Bytes) (k : ℕ)
    → lookup name m.loggers ≡ some k
    → lookup name (add_logger heap logger m).0.loggers ≡ some k
unfolding add_logger emplace
add_logger-lookup heap none m name k e = e
add_logger-lookup heap (some l) m name k e = ground (
  arith,
  lookup-assign (heap l).logger_name name l m.loggers,
  bytes_eq_iff (heap l).logger_name name,
)

Added-lookup :
    (heap : Loggers) (s : LoggerManager) {m : LoggerManager} (name : Bytes) (k : ℕ)
    → Added heap s m
    → lookup name s.loggers ≡ some k
    → lookup name m.loggers ≡ some k
Added-lookup heap s name k here e = e
Added-lookup heap s name k (next {m = m} logger added) e =
    add_logger-lookup heap logger m name k (Added-lookup heap s name k added e)

add_logger-added :
    (heap : Loggers) (l : ℕ) (m : LoggerManager)
    → (add_logger heap (some l) m).1 ≡ true
    → lookup (heap l).logger_name (add_logger heap (some l) m).0.loggers ≡ some l
unfolding add_logger emplace
add_logger-added heap l m h = ground (
  arith,
  lookup-assign (heap l).logger_name (heap l).logger_name l m.loggers,
  bytes_eq_iff (heap l).logger_name (heap l).logger_name,
)

get_logger-some :
    (m : LoggerManager) (name : Bytes) (k : ℕ)
    → lookup name m.loggers ≡ some k
    → get_logger m name ≡ some k
unfolding get_logger
get_logger-some m name k e = ground (arith, e)

-- A logger whose AddLogger returned true is what GetLogger returns for its name, whatever loggers
-- are added after it; Shutdown stops it, and behind Shutdown every name gets a null pointer.
pub shutdown-add_logger :
    (heap : Loggers) (m : LoggerManager) {later : LoggerManager} (logger : ℕ) (any : Bytes)
    → (add_logger heap (some logger) m).1 ≡ true
    → Added heap (add_logger heap (some logger) m).0 later
    → (get_logger later (heap logger).logger_name ≡ some logger)
      × IsStopped (shutdown later heap).1 logger
      × (get_logger (shutdown later heap).0 any ≡ none)
unfolding shutdown get_logger lookup
shutdown-add_logger heap m {later} logger any h added =
    let name = (heap logger).logger_name in
    let found =
      Added-lookup heap (add_logger heap (some logger) m).0 name logger added
        (add_logger-added heap logger m h) in
    (
      get_logger-some later name logger found,
      stop_all-IsStopped name logger later.loggers heap found,
      refl,
    )
