-- ===== src/Backup/Writer/Room.antt =====
-- log_system/logs_code/backlog/ServerBackupLog.cpp, BackupFileWriter: a write to a file that has
-- room.
use asyn_log_system_cloud_st.Base.{
  ℕ, zero, suc, ◌+◌, ◌≤◌, ◌≡◌, refl, sym, ap, ◌∙◌, ◌⊎◌, inl, inr, true, none, some, ◌++◌,
  append_assoc, Bytes, length, length-append, add64-eq-add, IsU64, Option-cases, arith,
}
use asyn_log_system_cloud_st.Backup.Writer.{Files, BackupFileWriter, current_size, put, content_of}
use asyn_log_system_cloud_st.Backup.Writer.Rotation.{line_of, has_room}
use asyn_log_system_cloud_st.Backup.Writer.Lines.{
  history, IsKept, put-suc, history-put, length_line,
}

module _ (w : BackupFileWriter) (limit : ℕ) (fits : IsU64 (w.max_size + limit + limit + 2)) where
  -- A file with its bound, and its length.
  short :
      (file : Bytes)
      → (length file ≤ w.max_size + 1)
        ⊎ ((message : Bytes) × (file ≡ line_of message) × (length message ≤ limit))
      → length file ≤ w.max_size + limit + 1
  short file (inl h) = omega arith
  short file (inr (message, e, m)) = omega (arith, ap length e, length_line message, m)

  content_short :
      (text last : Bytes) (files : Files)
      → IsKept w limit text last files
      → length (content_of (files 0)) ≤ w.max_size + limit + 1
  unfolding content_of
  content_short text last files kept = elim (Option-cases (files 0)) [
    | inl e ↦ rw e (omega arith)
    | inr (file, e) ↦ rw e (short file (kept.bounded 0 file e))
  ]

  current_eq : (files : Files) → current_size files ≡ length (content_of (files 0))
  unfolding current_size content_of
  current_eq files = ground arith

  room_bound :
      (files : Files) (size : ℕ)
      → IsU64 (length (content_of (files 0)) + size)
      → has_room w files size ≡ true
      → length (content_of (files 0)) + size ≤ w.max_size
  room_bound files size u h =
      ground (arith, current_eq files, add64-eq-add (length (content_of (files 0))) size u)

  pub room-IsKept :
      (message text last : Bytes) (files : Files)
      → length message ≤ limit
      → has_room w files (length message) ≡ true
      → IsKept w limit text last files
      → IsKept w limit
          (text ++ line_of message)
          (line_of message)
          (put 0 (content_of (files 0) ++ line_of message) files)
  unfolding put content_of
  room-IsKept message text last files m room kept = record {
    lost = kept.lost;
    kept =
        ap (λ x. kept.lost ++ x) (history-put w.retained_files files (line_of message))
        ∙ (sym (append_assoc kept.lost (history w.retained_files files) (line_of message))
            ∙ ap (λ x. x ++ line_of message) kept.kept);
    bounded = λ k file e. bound k file e;
    few = λ k h. ground (arith, kept.few k h);
    latest = (content_of (files 0), refl);
    whole = λ k h e. absent k e (kept.whole k h);
    no_gap = λ k j h e. gap k j h e;
  }
    where
      grown : length (content_of (files 0) ++ line_of message) ≤ w.max_size + 1
      grown = omega (
        arith,
        length-append (content_of (files 0)) (line_of message),
        length_line message,
        room_bound files (length message)
            (omega (arith, fits, m, content_short text last files kept)) room,
      )

      bound :
          (k : ℕ) (file : Bytes)
          → put 0 (content_of (files 0) ++ line_of message) files k ≡ some file
          → (length file ≤ w.max_size + 1) ⊎ ((x : Bytes) × (file ≡ line_of x) × (length x ≤ limit))
      bound zero file e =
          let same : content_of (files 0) ++ line_of message ≡ file = cc in
          rw (sym same) (inl grown)
      bound (suc k) file e =
          kept.bounded (suc k) file
            (sym (put-suc (content_of (files 0) ++ line_of message) files k) ∙ e)

      absent :
          {P : Type 0} (k : ℕ)
          → put 0 (content_of (files 0) ++ line_of message) files k ≡ none
          → (files k ≡ none → P)
          → P
      absent zero e f = absurd cc
      absent (suc k) e f = f (sym (put-suc (content_of (files 0) ++ line_of message) files k) ∙ e)

      gap :
          (k j : ℕ)
          → k ≤ j
          → put 0 (content_of (files 0) ++ line_of message) files k ≡ none
          → put 0 (content_of (files 0) ++ line_of message) files j ≡ none
      gap zero j h e = absurd cc
      gap (suc k) zero h e = absurd (omega arith)
      gap (suc k) (suc j) h e =
          let new = content_of (files 0) ++ line_of message in
          put-suc new files j ∙ kept.no_gap (suc k) (suc j) h (sym (put-suc new files k) ∙ e)
