-- ===== src/Backup/Writer.antt =====
-- log_system/logs_code/backlog/ServerBackupLog.cpp, BackupFileWriter. The mutex makes a write one
-- step. A file is its content, named by its number: 0 is the file itself, and n is the file with
-- the suffix "." and n.
pub mod Shift
pub mod Rotation
pub mod Lines
pub mod Room
pub mod Kept
use asyn_log_system_cloud_st.Base.{
  ℕ, zero, suc, ◌-◌, Bool, true, false, not, ◌&&◌, Option, none, some, [], ◌∷◌, ◌++◌, Bytes, length,
  is_some, leb, ◌==◌, if◌then◌else◌, add64,
}
use asyn_log_system_cloud_st.Log.Sink.{write_loop}

abbrev pub Files : Type 0
Files = ℕ → Option Bytes

pub record BackupFileWriter : Type 0 where
  pub max_size : ℕ
  pub retained_files : ℕ

-- The default arguments of the constructor.
abbrev pub default_writer : BackupFileWriter
default_writer = record { max_size = 104857600; retained_files = 5 }

-- What the calls report: whether the size can be read, whether removing a file works, whether
-- `exists` and `rename` fail for a number, whether fopen and the calls behind the text work, and
-- the counts of fwrite.
pub record WriteEvents : Type 0 where
  pub size_known : Bool
  pub removes : ℕ → Bool
  pub exists_fails : ℕ → Bool
  pub rename_fails : ℕ → Bool
  pub fopened : Bool
  pub fwrite : Bytes → ℕ
  pub newline_ok : Bool
  pub flush_ok : Bool
  pub close_ok : Bool

-- `std::filesystem::remove`.
unfoldable pub remove_file : WriteEvents → ℕ → Files → Files
remove_file ev i files = λ k. if ev.removes i && (k == i) then none else files k

-- A rename that works.
unfoldable pub rename : ℕ → ℕ → Files → Files
rename i j files = λ k. if k == j then files i else if k == i then none else files k

-- The body of the loop, and the rename behind it: `if (exists(from)) rename(from, to)`.
unfoldable pub shift_file : WriteEvents → ℕ → Files → Files × Bool
unfolding rename
shift_file ev i files =
    if ev.exists_fails i
    then (files, false)
    else if not (is_some (files i))
    then (files, true)
    else if ev.rename_fails i
    then (files, false)
    else (rename i (suc i) files, true)

-- The loop down from `index`, which returns at the first failure, and the rename of the file
-- itself.
unfoldable pub shift_files : WriteEvents → ℕ → Files → Files × Bool
unfolding shift_file
shift_files ev zero files = shift_file ev 0 files
shift_files ev (suc i) files =
    let (shifted, ok) = shift_file ev (suc i) files in
    let rest = shift_files ev i shifted in if ok then rest else (shifted, false)

-- `filesystem::file_size`, 0 for a file that is not there.
unfoldable pub current_size : Files → ℕ
current_size files = elim (files 0) [ none ↦ 0 | some file ↦ length file ]

unfoldable pub rotate_if_needed : WriteEvents → BackupFileWriter → ℕ → Files → Files × Bool
unfolding remove_file shift_files current_size
rotate_if_needed ev w incoming_size files =
    if not ev.size_known
    then (files, false)
    else if leb (add64 (current_size files) incoming_size) w.max_size
    then (files, true)
    else if w.retained_files == 0
    then (remove_file ev 0 files, ev.removes 0)
    else shift_files ev (w.retained_files - 1) (remove_file ev w.retained_files files)

-- `message.empty() || message.back() != '\n'`.
unfoldable pub needs_newline : Bytes → Bool
needs_newline [] = true
needs_newline (c ∷ []) = not (c == b'\n')
needs_newline (c ∷ d ∷ cs) = needs_newline (d ∷ cs)

-- A file with a new content.
unfoldable pub put : ℕ → Bytes → Files → Files
put i content files = λ k. if k == i then some content else files k

-- What fopen in the mode "ab" appends to.
unfoldable pub content_of : Option Bytes → Bytes
content_of none = []
content_of (some file) = file

-- From the loop's result on.
unfoldable pub finish_line : WriteEvents → Bytes → Files → Bytes × Bool → Files × Bool
unfolding needs_newline put
finish_line ev message files (file, whole) =
    if not whole
    then (put 0 file files, false)
    else if not (needs_newline message)
    then (put 0 file files, ev.flush_ok && ev.close_ok)
    else if ev.newline_ok
    then (put 0 (file ++ b'\n' ∷ []) files, ev.flush_ok && ev.close_ok)
    else (put 0 file files, false)

unfoldable pub append_line : WriteEvents → Bytes → Files → Files × Bool
unfolding write_loop finish_line content_of
append_line ev message files =
    if not ev.fopened
    then (files, false)
    else finish_line ev message files
        (write_loop ev.fwrite (suc (length message)) (content_of (files 0)) message)

unfoldable pub write : WriteEvents → BackupFileWriter → Bytes → Files → Files × Bool
unfolding rotate_if_needed append_line
write ev w message files =
    let (rotated, ready) = rotate_if_needed ev w (length message) files in
    if ready then append_line ev message rotated else (rotated, false)
