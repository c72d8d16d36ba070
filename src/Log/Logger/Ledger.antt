-- ===== src/Log/Logger/Ledger.antt =====
-- log_system/logs_code/AsyncLogger.hpp: every backup that is due is accounted for, in any order of
-- what the logging threads and the pool do.
use asyn_log_system_cloud_st.Base.{
  ℕ, ◌+◌, ◌≤◌, ◌≡◌, ap, Bool, true, false, not, ◌&&◌, Option, some, List, [], ◌∷◌, ◌++◌, Bytes,
  length, length-append, add64-eq-add, IsU64, arith,
}
use asyn_log_system_cloud_st.Log.Buffer.{BufferConfig}
use asyn_log_system_cloud_st.Log.Pool.{ThreadPool, try_enqueue}
use asyn_log_system_cloud_st.Log.Settings.{JsonData}
use asyn_log_system_cloud_st.Log.Logger.{
  Level, format, AsyncLogger, count_backup, count_drop, backup_enabled,
}
use asyn_log_system_cloud_st.Log.Logger.Steps.{
  is_fatal, is_error, count, only, Run, Step, Reach, waiting, underway, counted, IsBalanced,
  waiting-take_task, waiting-run_task, waiting-shut_down, pushed, started, enqueued, unavailable,
  dropped, changed, took, ran, shut, here, next,
}

-- The two counters of a logger.
abbrev counters : AsyncLogger → ℕ
counters logger = logger.remote_backup_failures + logger.remote_backup_drops

counters-count_backup :
    (sent : Bool) (logger : AsyncLogger)
    → IsU64 (counters logger + 1)
    → count sent + counters (count_backup sent logger) ≡ counters logger + 1
unfolding count_backup
counters-count_backup true logger u = omega arith
counters-count_backup false logger u =
    omega (arith, add64-eq-add logger.remote_backup_failures 1 (omega (arith, u)))

counters-count_drop :
    (logger : AsyncLogger)
    → IsU64 (counters logger + 1)
    → counters (count_drop logger) ≡ counters logger + 1
unfolding count_drop
counters-count_drop logger u =
    omega (arith, add64-eq-add logger.remote_backup_drops 1 (omega (arith, u)))

-- A task that TryEnqueue takes waits; one that it does not take is about to be counted.
waiting-try_enqueue :
    (p q : ThreadPool) (task : ℕ) (taken : Bool)
    → try_enqueue p task ≡ (q, taken)
    → waiting (some q) + count (not taken) ≡ waiting (some p) + 1
unfolding try_enqueue
waiting-try_enqueue p q task taken e = ground (arith, e, length-append p.tasks (task ∷ []))

-- One text less of a list.
length-without :
    (xs before after : List Bytes) (text : Bytes)
    → xs ≡ before ++ text ∷ after
    → length xs ≡ length (before ++ after) + 1
length-without xs before after text e =
    omega (arith, ap length e, length-append before (text ∷ after), length-append before after)

length-only : (b : Bool) (text : Bytes) → length (only b text) ≡ count b
length-only true text = omega arith
length-only false text = omega arith

module _ (c : BufferConfig) (conf : Option JsonData) (data_of : ℕ → Bytes) where
  -- Every step keeps the balance; what is due only grows.
  Step-due : {r t : Run} → Step c conf data_of r t → r.due ≤ t.due
  Step-due (pushed message accepted p) = omega arith
  Step-due (started before after text address_valid events e) = omega arith
  Step-due (enqueued before after text task taken e d p q) = omega arith
  Step-due (unavailable before after text e p) = omega arith
  Step-due (dropped n e) = omega arith
  Step-due (changed w) = omega arith
  Step-due (took before after p e) = omega arith
  Step-due (ran before after task address_valid events p e) = omega arith
  Step-due (shut p) = omega arith

  module _ (enabled : backup_enabled conf ≡ true) where
    counted_send :
        (sent : Bool) (logger : AsyncLogger)
        → IsU64 (counters logger + 1)
        → count (backup_enabled conf && sent) + counters (count_backup sent logger)
          ≡ counters logger + 1
    counted_send sent logger u = rw enabled (counters-count_backup sent logger u)

    enqueuing_lem :
        (accepted : Bool) (level : Level) (text : Bytes)
        → length (only (accepted && (is_error level && backup_enabled conf)) text)
          ≡ count (accepted && is_error level)
    enqueuing_lem accepted level text =
        ground
          (arith, enabled, length-only (accepted && (is_error level && backup_enabled conf)) text)

    Step-IsBalanced :
        {r t : Run} → Step c conf data_of r t → IsU64 (t.due + 1) → IsBalanced r → IsBalanced t
    Step-IsBalanced {r} (pushed message accepted p) u b = omega (
      arith,
      b,
      length-append r.starting (only (accepted && is_fatal message.level) (format message)),
      length-append r.enqueuing
          (only (accepted && (is_error message.level && backup_enabled conf)) (format message)),
      length-only (accepted && is_fatal message.level) (format message),
      enqueuing_lem accepted message.level (format message),
    )
    Step-IsBalanced {r} (started before after text address_valid events e) u b = omega (
      arith,
      b,
      length-without r.starting before after text e,
      counted_send _ r.logger (omega (arith, u, b)),
    )
    Step-IsBalanced {r} (enqueued {p = p} {q = q} before after text task taken e d s t) u b =
        omega (
          arith,
          b,
          length-without r.enqueuing before after text e,
          waiting-try_enqueue p q task taken t,
          ap waiting s,
        )
    Step-IsBalanced {r} (unavailable before after text e s) u b =
        omega (arith, b, length-without r.enqueuing before after text e)
    Step-IsBalanced {r} (dropped n e) u b =
        omega (arith, b, e, counters-count_drop r.logger (omega (arith, u, b)))
    Step-IsBalanced {r} (changed w) u b = b
    Step-IsBalanced {r} (took {p = p} before after q e) u b =
        omega (arith, b, waiting-take_task p before after e, ap waiting q)
    Step-IsBalanced {r} (ran {p = p} before after task address_valid events q e) u b = omega (
      arith,
      b,
      waiting-run_task p before after task e,
      ap waiting q,
      counted_send _ r.logger (omega (arith, u, b)),
    )
    Step-IsBalanced {r} (shut {p = p} q) u b = omega (arith, b, ap waiting q, waiting-shut_down p)

    -- While backups are enabled, in every run of the threads that use a logger and of the pool that
    -- it uses alone, from a state where this holds and as long as the count fits in 64 bits: the
    -- accepted FATAL and ERROR messages are exactly as many as the backups that Start has sent, the
    -- counted failures, the counted drops, the backups that the pool still holds and the ones that
    -- a thread is still busy with.
    pub Reach-IsBalanced :
        (s : Run) {r : Run}
        → IsBalanced s
        → Reach c conf data_of s r
        → IsU64 (r.due + 1)
        → r.sent + counted r + underway r ≡ r.due
    Reach-IsBalanced s b here u = b
    Reach-IsBalanced s b (next reach step) u =
        Step-IsBalanced step u (Reach-IsBalanced s b reach (omega (arith, u, Step-due step)))
