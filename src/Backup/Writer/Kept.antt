-- ===== src/Backup/Writer/Kept.antt =====
-- log_system/logs_code/backlog/ServerBackupLog.cpp, BackupFileWriter: what the files hold after any
-- sequence of writes.
use asyn_log_system_cloud_st.Base.{
  ℕ, zero, suc, ◌+◌, ◌≤◌, ◌<◌, ◌≡◌, refl, sym, ap, ◌∙◌, ◌⊎◌, inl, inr, none, some, List, [], ◌∷◌,
  ◌++◌, append-nil, append_assoc, Bytes, length, ltb, if◌then◌else◌, IsU64, Bool-cases, arith,
}
use asyn_log_system_cloud_st.Backup.Writer.{
  Files, BackupFileWriter, WriteEvents, put, content_of, write,
}
use asyn_log_system_cloud_st.Backup.Writer.Shift.{Works}
use asyn_log_system_cloud_st.Backup.Writer.Rotation.{
  line_of, aged, has_room, write_room, write_full,
}
use asyn_log_system_cloud_st.Backup.Writer.Lines.{
  history, writes, lines, AllWork, last_line, IsKept, history_same, put-suc, history-aged,
}
use asyn_log_system_cloud_st.Backup.Writer.Room.{room-IsKept}

module _ (w : BackupFileWriter) (limit : ℕ) (fits : IsU64 (w.max_size + limit + limit + 2)) where
  full-IsKept :
      (message text last : Bytes) (files next : Files)
      → length message ≤ limit
      → IsKept w limit text last files
      → ((k : ℕ) → next k ≡ put 0 (line_of message) (aged w.retained_files files) k)
      → IsKept w limit (text ++ line_of message) (line_of message) next
  unfolding put content_of
  full-IsKept message text last files next m kept at =
      let r = w.retained_files in
      let line = line_of message in
      record {
        lost = kept.lost ++ content_of (files r);
        kept =
            append_assoc kept.lost (content_of (files r)) (history r next)
            ∙ (ap (λ x. kept.lost ++ (content_of (files r) ++ x))
                  (history_same r next (put 0 line (aged r files)) at)
                ∙ (ap (λ x. kept.lost ++ x) (history-aged r r files line (omega arith))
                    ∙ (sym (append_assoc kept.lost (history r files) line)
                        ∙ ap (λ x. x ++ line) kept.kept)));
        bounded = λ k file e. bound k file (sym (at k) ∙ e);
        few = λ k h. at k ∙ beyond k h;
        latest = ([], ap content_of (at 0));
        whole = λ k h e. nothing k h (sym (at k) ∙ e);
        no_gap = λ k j h e. at j ∙ gap k j h (sym (at k) ∙ e);
      }
    where
      bound :
          (k : ℕ) (file : Bytes)
          → put 0 (line_of message) (aged w.retained_files files) k ≡ some file
          → (length file ≤ w.max_size + 1) ⊎ ((x : Bytes) × (file ≡ line_of x) × (length x ≤ limit))
      bound zero file e = let same : line_of message ≡ file = cc in inr (message, sym same, m)
      bound (suc k) file e = elim (Bool-cases (ltb k w.retained_files)) [
        | inl h ↦
            kept.bounded k file
              (ground (arith, put-suc (line_of message) (aged w.retained_files files) k))
        | inr h ↦
            kept.bounded (suc k) file
              (ground (arith, put-suc (line_of message) (aged w.retained_files files) k))
      ]

      beyond :
          (k : ℕ)
          → w.retained_files < k
          → put 0 (line_of message) (aged w.retained_files files) k ≡ none
      beyond zero h = absurd (omega arith)
      beyond (suc k) h = ground (arith, kept.few (suc k) h)

      next_none :
          (k : ℕ)
          → put 0 (line_of message) (aged w.retained_files files) (suc k) ≡ none
          → (if ltb k w.retained_files then files k else files (suc k)) ≡ none
      next_none k e = sym (put-suc (line_of message) (aged w.retained_files files) k) ∙ e

      nothing :
          (k : ℕ)
          → k ≤ w.retained_files
          → put 0 (line_of message) (aged w.retained_files files) k ≡ none
          → kept.lost ++ content_of (files w.retained_files) ≡ []
      nothing zero h e = absurd cc
      nothing (suc k) h e =
          let gone : files k ≡ none = ground (arith, next_none k e) in
          ap (λ x. x ++ content_of (files w.retained_files)) (kept.whole k (omega arith) gone)
          ∙ ap content_of (kept.no_gap k w.retained_files (omega arith) gone)

      gap :
          (k j : ℕ)
          → k ≤ j
          → put 0 (line_of message) (aged w.retained_files files) k ≡ none
          → put 0 (line_of message) (aged w.retained_files files) j ≡ none
      gap zero j h e = absurd cc
      gap (suc k) zero h e = absurd (omega arith)
      gap (suc k) (suc j) h e =
          put-suc (line_of message) (aged w.retained_files files) j
          ∙ ground (
            arith,
            next_none k e,
            kept.no_gap k j,
            kept.no_gap k (suc j),
            kept.no_gap (suc k) (suc j),
          )

  write-IsKept :
      (ev : WriteEvents) (message text last : Bytes) (files : Files)
      → Works ev
      → length message ≤ limit
      → IsKept w limit text last files
      → IsKept w limit (text ++ line_of message) (line_of message) (write ev w message files).0
  write-IsKept ev message text last files works m kept =
      elim (Bool-cases (has_room w files (length message))) [
        | inl room ↦
            rw (write_room ev works w message files room)
              (room-IsKept w limit fits message text last files m room kept)
        | inr full ↦
            full-IsKept message text last files _ m kept
              (write_full ev works w message files full).1
      ]

  writes_from :
      (calls : List (WriteEvents × Bytes)) (text last : Bytes) (files : Files)
      → AllWork limit calls
      → IsKept w limit text last files
      → IsKept w limit (text ++ lines calls) (last_line last calls) (writes w calls files)
  writes_from [] text last files h kept = rw (append-nil text) kept
  writes_from ((ev, message) ∷ calls) text last files h kept =
      rw (sym (append_assoc text (line_of message) (lines calls))) (
        writes_from calls (text ++ line_of message) (line_of message) (write ev w message files).0
          h.1 (write-IsKept ev message text last files h.0.0 h.0.1 kept))

  history-none : (r : ℕ) → history r (λ k. none) ≡ []
  unfolding content_of
  history-none zero = refl
  history-none (suc r) = history-none r

  -- Starting with no file, after any sequence of writes whose system calls work, of messages of at
  -- most `limit` bytes with sizes that fit in 64 bits, the files hold, from the highest number
  -- down to the file itself, exactly the end of the lines written, in order, with the last line in
  -- the file itself; nothing is lost before each number up to the files to retain is taken. No
  -- file has a number beyond them, and each is at most one byte longer than the maximum size, or
  -- one line alone.
  pub writes-IsKept :
      (calls : List (WriteEvents × Bytes))
      → AllWork limit calls
      → IsKept w limit (lines calls) (last_line [] calls) (writes w calls (λ k. none))
  unfolding content_of
  writes-IsKept calls h =
      writes_from calls [] [] (λ k. none) h
        (record {
          lost = [];
          kept = history-none w.retained_files;
          bounded = λ k file e. absurd cc;
          few = λ k f. refl;
          latest = ([], refl);
          whole = λ k f e. refl;
          no_gap = λ k j f e. refl;
        })
