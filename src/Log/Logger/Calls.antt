-- ===== src/Log/Logger/Calls.antt =====
-- log_system/logs_code/AsyncLogger.hpp, Serialize: one call with nothing in between, and the steps
-- of its thread.
use asyn_log_system_cloud_st.Base.{
  ℕ, ◌+◌, ◌≡◌, refl, subst, Bool, true, false, ◌&&◌, Option, none, some, List, [], ◌∷◌, ◌++◌,
  append-nil, Bytes, Bool-cases, inl, inr, arith,
}
use asyn_log_system_cloud_st.Log.Buffer.{BufferConfig, bytes}
use asyn_log_system_cloud_st.Log.Worker.{Worker}
use asyn_log_system_cloud_st.Log.Worker
use asyn_log_system_cloud_st.Log.Pool.{ThreadPool, try_enqueue}
use asyn_log_system_cloud_st.Log.Settings.{JsonData}
use asyn_log_system_cloud_st.Log.Logger.{
  Level, debug, info, warn, error, fatal, LogMessage, format, AsyncLogger, LogResult, returned,
  count_backup, count_drop, backup_enabled, after_enqueue, enqueue_backup, back_up, after_push,
  serialize,
}
use asyn_log_system_cloud_st.Log.Logger.Steps.{
  is_fatal, is_error, count, only, Run, Reach, pushed, started, enqueued, unavailable, dropped,
  here, next,
}
use asyn_log_system_cloud_st.Backup.Client.{AttemptEvents, start}

module _ (c : BufferConfig) (conf : Option JsonData) (data_of : ℕ → Bytes) where
  -- A run from `r` that leaves no thread busy and ends with this logger and pool.
  abbrev Ends : Run → LogResult → Type 0
  Ends r result =
      (logger : AsyncLogger) × (pool : Option ThreadPool) × (sent : ℕ) × (due : ℕ) × (result
        ≡ returned logger pool)
      × Reach c conf data_of r (record r { logger = logger; pool = pool; sent = sent; due = due })

  -- The state behind a push.
  abbrev behind : Run → Worker → List Bytes → List Bytes → ℕ → Run
  behind r w starting enqueuing due = record r {
    logger = record r.logger { worker = w };
    starting = r.starting ++ starting;
    enqueuing = r.enqueuing ++ enqueuing;
    due = due;
  }

  behind_lem :
      (r : Run) (w : Worker) (message : LogMessage) (accepted : Bool) (xs ys : List Bytes)
      → Worker.push c r.logger.worker (bytes (format message)) ≡ Worker.returned w accepted
      → only (accepted && is_fatal message.level) (format message) ≡ xs
      → only (accepted && (is_error message.level && backup_enabled conf)) (format message) ≡ ys
      → (due : ℕ) × Reach c conf data_of r (behind r w xs ys due)
  behind_lem r w message accepted xs ys e f g =
      let due : ℕ =
        r.due
        + count (accepted && is_fatal message.level)
        + count (accepted && is_error message.level) in
      (
        due,
        subst (λ zs. Reach c conf data_of r (behind r w xs zs due)) g
            (subst
              (λ zs. Reach c conf data_of r (
                behind r w zs
                  (only (accepted && (is_error message.level && backup_enabled conf))
                    (format message))
                  due))
              f (next here (pushed message accepted e))),
      )

  -- No thread is busy any more.
  settled :
      (r : Run) (logger : AsyncLogger) (pool : Option ThreadPool) (dropping sent due : ℕ)
      → dropping ≡ r.dropping
      → Reach c conf data_of r (record {
        logger = logger;
        pool = pool;
        starting = r.starting ++ [];
        enqueuing = r.enqueuing ++ [];
        dropping = dropping;
        sent = sent;
        due = due;
      })
      → Ends r (returned logger pool)
  settled r logger pool dropping sent due e reach =
      let run = λ (xs ys : List Bytes) (d : ℕ). record r {
        logger = logger;
        pool = pool;
        starting = xs;
        enqueuing = ys;
        dropping = d;
        sent = sent;
        due = due;
      } in
      (
        logger,
        pool,
        sent,
        due,
        refl,
        subst (λ xs. Reach c conf data_of r (run xs r.enqueuing r.dropping)) (append-nil r.starting)
            (subst (λ ys. Reach c conf data_of r (run (r.starting ++ []) ys r.dropping))
              (append-nil r.enqueuing)
              (subst (λ d. Reach c conf data_of r (run (r.starting ++ []) (r.enqueuing ++ []) d)) e
                reach)),
      )

  module _ (r : Run) (w : Worker) (message : LogMessage) where
    -- The logger behind the push.
    abbrev logged : AsyncLogger
    logged = record r.logger { worker = w }

    -- Where no backup is due.
    quiet :
        (accepted : Bool)
        → Worker.push c r.logger.worker (bytes (format message)) ≡ Worker.returned w accepted
        → only (accepted && is_fatal message.level) (format message) ≡ []
        → only (accepted && (is_error message.level && backup_enabled conf)) (format message) ≡ []
        → Ends r (returned logged r.pool)
    quiet accepted e f g =
        let (due, reach) = behind_lem r w message accepted [] [] e f g in
        settled r logged r.pool r.dropping r.sent due refl reach

    module _
        (pushes : Worker.push c r.logger.worker (bytes (format message))
          ≡ Worker.returned w true) where
      fatal_lem :
          (address_valid : Bool) (events : ℕ → AttemptEvents)
          → message.level ≡ fatal
          → Ends r (
              returned
                (count_backup (start conf address_valid events (format message)).0 logged)
                r.pool)
      fatal_lem address_valid events l =
          let (due, reach) =
            behind_lem r w message true (format message ∷ []) [] pushes (rw l refl) (rw l refl) in
          settled r (count_backup (start conf address_valid events (format message)).0 logged)
            r.pool r.dropping _ due refl
            (next reach (started r.starting [] (format message) address_valid events refl))

      module _ (task : ℕ) (names : data_of task ≡ format message) (l : message.level ≡ error)
          (enabled : backup_enabled conf ≡ true) where
        due_lem : (due : ℕ) × Reach c conf data_of r (behind r w [] (format message ∷ []) due)
        due_lem =
            behind_lem r w message true [] (format message ∷ []) pushes (rw l refl)
              (rw (l, enabled) refl)

        unavailable_lem : r.pool ≡ none → Ends r (returned (count_drop logged) r.pool)
        unavailable_lem p =
            let (due, reach) = due_lem in
            settled r (count_drop logged) r.pool r.dropping r.sent due refl (
              next (next reach (unavailable r.enqueuing [] (format message) refl p))
                (dropped r.dropping refl))

        enqueued_lem :
            (p : ThreadPool) (t : ThreadPool × Bool)
            → r.pool ≡ some p
            → try_enqueue p task ≡ t
            → Ends r (after_enqueue logged t)
        unfolding after_enqueue
        enqueued_lem p (q, true) e f =
            let (due, reach) = due_lem in
            settled r logged (some q) (r.dropping + 0) r.sent due (omega arith)
              (next reach (enqueued r.enqueuing [] (format message) task true refl names e f))
        enqueued_lem p (q, false) e f =
            let (due, reach) = due_lem in
            settled r (count_drop logged) (some q) r.dropping r.sent due refl (
              next (next reach (enqueued r.enqueuing [] (format message) task false refl names e f))
                (dropped r.dropping refl))

        enqueue_backup_lem :
            (pool : Option ThreadPool) → r.pool ≡ pool → Ends r (enqueue_backup pool task logged)
        unfolding enqueue_backup
        enqueue_backup_lem none e =
            subst (λ p. Ends r (returned (count_drop logged) p)) e (unavailable_lem e)
        enqueue_backup_lem (some p) e = enqueued_lem p (try_enqueue p task) e refl

      module _ (task : ℕ) (names : data_of task ≡ format message) (address_valid : Bool)
          (events : ℕ → AttemptEvents) where
        back_up_lem :
            (level : Level)
            → message.level ≡ level
            → Ends r (
                back_up conf r.pool task
                  (start conf address_valid events (format message)).0
                  level
                  logged)
        unfolding back_up
        back_up_lem fatal l = fatal_lem address_valid events l
        back_up_lem error l = elim (Bool-cases (backup_enabled conf)) [
          | inl on ↦ rw on (enqueue_backup_lem task names l on r.pool refl)
          | inr off ↦ rw off (quiet true pushes (rw l refl) (rw (l, off) refl))
        ]
        back_up_lem debug l = quiet true pushes (rw l refl) (rw l refl)
        back_up_lem info l = quiet true pushes (rw l refl) (rw l refl)
        back_up_lem warn l = quiet true pushes (rw l refl) (rw l refl)

  -- A call of Serialize whose push returns `accepted`, with Start's own result, ends as the steps
  -- of its thread do where no other thread comes between.
  pub serialize-Reach :
      (r : Run) (w : Worker) (message : LogMessage) (accepted address_valid : Bool)
      (events : ℕ → AttemptEvents) (task : ℕ)
      → data_of task ≡ format message
      → Worker.push c r.logger.worker (bytes (format message)) ≡ Worker.returned w accepted
      → Ends r (
          serialize c conf r.pool task
            (start conf address_valid events (format message)).0
            message
            r.logger)
  unfolding serialize after_push
  serialize-Reach r w message true address_valid events task names e =
      rw e (back_up_lem r w message e task names address_valid events message.level refl)
  serialize-Reach r w message false address_valid events task names e =
      rw e (quiet r w message false e refl refl)
