-- ===== src/Backup/Writer/Lines.antt =====
-- log_system/logs_code/backlog/ServerBackupLog.cpp, BackupFileWriter: sequences of writes, and the
-- contents of the files in order.
use asyn_log_system_cloud_st.Base.{
  ℕ, zero, suc, ◌+◌, ◌≤◌, ◌<◌, ◌≡◌, refl, sym, ap, ◌∙◌, ◌⊎◌, inl, inr, none, some, List, [], ◌∷◌,
  ◌++◌, append_assoc, Bytes, length, length-append, All, Bool-cases, arith,
}
use asyn_log_system_cloud_st.Backup.Writer.{
  Files, BackupFileWriter, WriteEvents, needs_newline, put, content_of, write,
}
use asyn_log_system_cloud_st.Backup.Writer.Shift.{Works}
use asyn_log_system_cloud_st.Backup.Writer.Rotation.{line_of, aged}

-- The contents of the files from the oldest to the newest.
abbrev pub history : ℕ → Files → Bytes
history zero files = content_of (files 0)
history (suc r) files = content_of (files (suc r)) ++ history r files

-- The files after a sequence of calls of Write, each with what its system calls report.
abbrev pub writes : BackupFileWriter → List (WriteEvents × Bytes) → Files → Files
writes w [] files = files
writes w ((ev, message) ∷ calls) files = writes w calls (write ev w message files).0

abbrev pub lines : List (WriteEvents × Bytes) → Bytes
lines [] = []
lines ((ev, message) ∷ calls) = line_of message ++ lines calls

-- The calls work and the messages have at most `limit` bytes.
abbrev pub AllWork : ℕ → List (WriteEvents × Bytes) → Type 0
AllWork limit = All (λ call. Works call.0 × (length call.1 ≤ limit))

-- The last line, `line` where there is none.
abbrev pub last_line : Bytes → List (WriteEvents × Bytes) → Bytes
last_line line [] = line
last_line line ((ev, message) ∷ calls) = last_line (line_of message) calls

-- What the files hold of `text`: the end of it, in order, in as many files as are kept and the
-- current one, each of at most a byte more than the maximum unless it is one line. The last line is
-- there, and nothing is lost before every number is taken.
pub record IsKept (w : BackupFileWriter) (limit : ℕ) (text last : Bytes) (files : Files)
    : Type 0 where
  pub lost : Bytes
  pub kept : lost ++ history w.retained_files files ≡ text
  pub bounded :
      (k : ℕ) (file : Bytes)
      → files k ≡ some file
      → (length file ≤ w.max_size + 1)
        ⊎ ((message : Bytes) × (file ≡ line_of message) × (length message ≤ limit))
  pub few : (k : ℕ) → w.retained_files < k → files k ≡ none
  pub latest : (front : Bytes) × (content_of (files 0) ≡ front ++ last)
  pub whole : (k : ℕ) → k ≤ w.retained_files → files k ≡ none → lost ≡ []
  pub no_gap : (k j : ℕ) → k ≤ j → files k ≡ none → files j ≡ none

pub history_same : (r : ℕ) (f g : Files) → ((k : ℕ) → f k ≡ g k) → history r f ≡ history r g
history_same zero f g h = ap content_of (h 0)
history_same (suc r) f g h =
    ap (λ x. content_of x ++ history r f) (h (suc r))
    ∙ ap (λ x. content_of (g (suc r)) ++ x) (history_same r f g h)

pub put-suc : (c : Bytes) (files : Files) (k : ℕ) → put 0 c files (suc k) ≡ files (suc k)
unfolding put
put-suc c files k = ground arith

pub aged-suc : (r k : ℕ) (files : Files) → k < r → aged r files (suc k) ≡ files k
aged-suc r k files h = ground arith

pub history-put :
    (r : ℕ) (files : Files) (line : Bytes)
    → history r (put 0 (content_of (files 0) ++ line) files) ≡ history r files ++ line
unfolding put content_of
history-put zero files line = refl
history-put (suc r) files line =
    let old = content_of (files 0) ++ line in
    ap (λ x. content_of x ++ history r (put 0 old files)) (put-suc old files r)
    ∙ (ap (λ x. content_of (files (suc r)) ++ x) (history-put r files line)
        ∙ sym (append_assoc (content_of (files (suc r))) (history r files) line))

pub history-aged :
    (r n : ℕ) (files : Files) (line : Bytes)
    → n ≤ r
    → content_of (files n) ++ history n (put 0 line (aged r files)) ≡ history n files ++ line
unfolding put content_of
history-aged r zero files line h = refl
history-aged r (suc n) files line h =
    ap (λ x. content_of (files (suc n)) ++ (content_of x ++ history n (put 0 line (aged r files))))
      (put-suc line (aged r files) n ∙ aged-suc r n files (omega arith))
    ∙ (ap (λ x. content_of (files (suc n)) ++ x) (history-aged r n files line (omega arith))
        ∙ sym (append_assoc (content_of (files (suc n))) (history n files) line))

pub length_line : (message : Bytes) → length (line_of message) ≤ length message + 1
length_line message = elim (Bool-cases (needs_newline message)) [
  | inl e ↦ rw e (omega (arith, length-append message (b'\n' ∷ [])))
  | inr e ↦ rw e (omega arith)
]
