-- ===== src/Backup/Writer/Rotation.antt =====
-- log_system/logs_code/backlog/ServerBackupLog.cpp, BackupFileWriter: what a rotation and a write
-- leave when the system calls work.
use asyn_log_system_cloud_st.Base.{
  ℕ, zero, suc, ◌≡◌, refl, ap, ◌∙◌, Bool, true, false, none, some, [], ◌∷◌, ◌++◌, Bytes, length,
  ltb, leb, ◌==◌, append_assoc, if◌then◌else◌, add64, arith,
}
use asyn_log_system_cloud_st.Log.Sink.{write_loop}
use asyn_log_system_cloud_st.Log.Sink.Rolled.{write_loop_lem}
use asyn_log_system_cloud_st.Backup.Writer.{
  Files, BackupFileWriter, WriteEvents, remove_file, shift_files, current_size, rotate_if_needed,
  needs_newline, put, content_of, finish_line, append_line, write,
}
use asyn_log_system_cloud_st.Backup.Writer.Shift.{Works, shifted, shift_files_at}

-- The line that a message becomes.
abbrev pub line_of : Bytes → Bytes
line_of message = if needs_newline message then message ++ b'\n' ∷ [] else message

-- A rotation drops the file with the last number and adds 1 to the number of every other.
abbrev pub aged : ℕ → Files → Files
aged r files zero = none
aged r files (suc k) = if ltb k r then files k else files (suc k)

-- Whether the file has room for a message.
abbrev pub has_room : BackupFileWriter → Files → ℕ → Bool
has_room w files size = leb (add64 (current_size files) size) w.max_size

module _ (ev : WriteEvents) (works : Works ev) where
  finish_line_lem :
      (message old : Bytes) (files : Files)
      → finish_line ev message files (old ++ message, true)
        ≡ (put 0 (old ++ line_of message) files, true)
  unfolding finish_line
  finish_line_lem message old files =
      ground (arith, works.ends, works.flushes, works.closes, append_assoc old message (b'\n' ∷ []))

  append_opened :
      (message : Bytes) (files : Files)
      → append_line ev message files
        ≡ finish_line ev message files
            (write_loop ev.fwrite (suc (length message)) (content_of (files 0)) message)
  unfolding append_line
  append_opened message files = ground (arith, works.opens)

  append_line_lem :
      (message : Bytes) (files : Files)
      → append_line ev message files ≡ (put 0 (content_of (files 0) ++ line_of message) files, true)
  append_line_lem message files =
      let whole =
        write_loop_lem ev.fwrite (suc (length message)) (content_of (files 0)) message works.writes
          (omega arith) in
      append_opened message files
      ∙ (ap (finish_line ev message files) whole
          ∙ finish_line_lem message (content_of (files 0)) files)

  room_lem :
      (w : BackupFileWriter) (message : Bytes) (files : Files)
      → has_room w files (length message) ≡ true
      → write ev w message files ≡ append_line ev message files
  unfolding write rotate_if_needed
  room_lem w message files h = ground (arith, works.knows)

  full_lem :
      (w : BackupFileWriter) (message : Bytes) (files rotated : Files)
      → rotate_if_needed ev w (length message) files ≡ (rotated, true)
      → write ev w message files ≡ append_line ev message rotated
  unfolding write
  full_lem w message files rotated e = ground (arith, e)

  rotate_none :
      (max : ℕ) (size : ℕ) (files : Files)
      → has_room (record { max_size = max; retained_files = 0 }) files size ≡ false
      → rotate_if_needed ev (record { max_size = max; retained_files = 0 }) size files
        ≡ (remove_file ev 0 files, true)
  unfolding rotate_if_needed
  rotate_none max size files h = ground (arith, works.knows, works.removes 0)

  rotate_some :
      (max n size : ℕ) (files : Files)
      → has_room (record { max_size = max; retained_files = suc n }) files size ≡ false
      → rotate_if_needed ev (record { max_size = max; retained_files = suc n }) size files
        ≡ shift_files ev n (remove_file ev (suc n) files)
  unfolding rotate_if_needed
  rotate_some max n size files h = ground (arith, works.knows)

  removed_at :
      (i k : ℕ) (files : Files) → remove_file ev i files k ≡ (if k == i then none else files k)
  unfolding remove_file
  removed_at i k files = ground (arith, works.removes i)

  rotate_lem :
      (max r size : ℕ) (files : Files)
      → has_room (record { max_size = max; retained_files = r }) files size ≡ false
      → (rotated : Files) × (rotate_if_needed ev
            (record { max_size = max; retained_files = r })
            size
            files
          ≡ (rotated, true))
        × ((k : ℕ) → rotated k ≡ aged r files k)
  rotate_lem max zero size files h =
      (remove_file ev 0 files, rotate_none max size files h, λ k. removed_at 0 k files ∙ first k)
    where
      first : (k : ℕ) → (if k == 0 then none else files k) ≡ aged 0 files k
      first zero = refl
      first (suc k) = ground arith
  rotate_lem max (suc n) size files h =
      let removed = remove_file ev (suc n) files in
      let (ok, at) =
        shift_files_at ev works n removed (removed_at (suc n) (suc n) files ∙ ground arith) in
      (
        (shift_files ev n removed).0,
        rotate_some max n size files h ∙ ap (λ b. ((shift_files ev n removed).0, b)) ok,
        λ k. at k ∙ same k,
      )
    where
      same : (k : ℕ) → shifted n (remove_file ev (suc n) files) k ≡ aged (suc n) files k
      same zero = refl
      same (suc k) = ground (arith, removed_at (suc n) k files, removed_at (suc n) (suc k) files)

  -- A file with room gets the line at its end and the others stay.
  pub write_room :
      (w : BackupFileWriter) (message : Bytes) (files : Files)
      → has_room w files (length message) ≡ true
      → write ev w message files ≡ (put 0 (content_of (files 0) ++ line_of message) files, true)
  write_room w message files h = room_lem w message files h ∙ append_line_lem message files

  -- A full file is moved to the next number with those behind it, and the line starts a new one.
  pub write_full :
      (w : BackupFileWriter) (message : Bytes) (files : Files)
      → has_room w files (length message) ≡ false
      → ((write ev w message files).1 ≡ true)
        × ((k : ℕ)
            → (write ev w message files).0 k
              ≡ put 0 (line_of message) (aged w.retained_files files) k)
  unfolding put content_of
  write_full w message files h =
      let (rotated, e, at) = rotate_lem w.max_size w.retained_files (length message) files h in
      let whole = full_lem w message files rotated e ∙ append_line_lem message rotated in
      (ap (λ x. x.1) whole, λ k. ap (λ x. x.0 k) whole ∙ placed rotated k (at 0) (at k))
    where
      placed :
          (rotated : Files) (k : ℕ)
          → rotated 0 ≡ none
          → rotated k ≡ aged w.retained_files files k
          → put 0 (content_of (rotated 0) ++ line_of message) rotated k
            ≡ put 0 (line_of message) (aged w.retained_files files) k
      placed rotated k e0 ek =
          ap (λ x. if k == 0 then some (content_of x ++ line_of message) else rotated k) e0
          ∙ ap (λ x. if k == 0 then some (line_of message) else x) ek
