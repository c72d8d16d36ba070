-- ===== src/Store/FileUtil.antt =====
-- src/server/Util.hpp, FileUtil: files read and written by repeated system calls. A file is its
-- content, `none` where there is none; null pointers, which no caller passes, are not modelled.
pub mod Slices
use asyn_log_system_cloud_st.Base.{
  ℕ, suc, ◌+◌, ◌-◌, Bool, true, false, not, ◌&&◌, ◌||◌, Option, none, some, List, [], ◌∷◌, ◌++◌,
  Bytes, codes, find, length, take, drop, is_empty, is_some, ltb, leb, if◌then◌else◌, u64_mod,
}
use asyn_log_system_cloud_st.Base.Calls.{Call, transfer}
use asyn_log_system_cloud_st.Base.Maps.{assign, erase}
use asyn_log_system_cloud_st.Base.Integers.{ℤ, pos, negsuc}
use asyn_log_system_cloud_st.Store.Platform.{Paths}

-- What the calls of a read report: open, pread and close.
pub record ReadCalls : Type 0 where
  pub opened : Bool
  pub preads : List Call
  pub closed : Bool

-- What the calls of a write report: open, write, fsync and close.
pub record WriteCalls : Type 0 where
  pub opened : Bool
  pub writes : List Call
  pub synced : Bool
  pub closed : Bool

-- stat fails where there is no file.
unfoldable pub file_size : Option Bytes → ℤ
file_size none = negsuc 0
file_size (some file) = pos (length file)

-- `std::numeric_limits<off_t>::max()`.
abbrev pub max_offset : ℕ
max_offset = 9223372036854775807

-- What the read loop leaves: the content that the caller gets where the function returns true.
unfoldable pub after_reads : ReadCalls → Bytes × Bool → Option Bytes
after_reads calls (content, whole) =
    if not whole then none else if calls.closed then some content else none

-- The bytes of the file from `position` on, as pread finds them.
unfoldable pub read_slice : ReadCalls → Bytes → ℕ → ℕ → Option Bytes
unfolding transfer after_reads
read_slice calls file position length_ =
    if not calls.opened
    then none
    else after_reads calls (transfer calls.preads [] (take length_ (drop position file)))

unfoldable pub get_pos_len : ReadCalls → Option Bytes → ℕ → ℕ → Option Bytes
unfolding file_size read_slice
get_pos_len calls none position length_ = none
get_pos_len calls (some file) position length_ =
    if ltb (length file) position
      || (ltb (length file - position) length_ || ltb max_offset position)
    then none
    else read_slice calls file position length_

unfoldable pub get_content : ReadCalls → Option Bytes → Option Bytes
unfolding get_pos_len
get_content calls none = none
get_content calls (some file) =
    if leb u64_mod (length file) then none else get_pos_len calls (some file) 0 (length file)

-- What the write loop leaves: the file, and the result.
unfoldable pub after_writes : WriteCalls → Bytes × Bool → Option Bytes × Bool
after_writes calls (written, whole) =
    if not whole then (some written, false) else (some written, calls.synced && calls.closed)

unfoldable pub set_content : WriteCalls → Option Bytes → Bytes → Option Bytes × Bool
unfolding transfer after_writes
set_content calls file content =
    if not calls.opened
    then (file, false)
    else after_writes calls (transfer calls.writes [] content)

-- `pack` is bundle::pack with the format, `none` an exception.
unfoldable pub compress :
    (Bytes → Option Bytes) → WriteCalls → Option Bytes → Bytes → Option Bytes × Bool
unfolding set_content
compress pack calls file content = elim (pack content) [
  | none ↦ (file, false)
  | some packed ↦ set_content calls file packed
]

-- Reads `file`, and writes what it unpacks to into `output`.
unfoldable pub un_compress :
    (Bytes → Option Bytes)
    → ReadCalls
    → WriteCalls
    → Option Bytes
    → Option Bytes
    → Option Bytes × Bool
unfolding get_content set_content
un_compress unpack reads writes file output = elim (get_content reads file) [
  | none ↦ (output, false)
  | some packed ↦ elim (unpack packed) [
    | none ↦ (output, false)
    | some content ↦ set_content writes output content
  ]
]

-- The answer of `fs::exists` with its error.
unfoldable pub exists : Bool → Bool → Bool
exists there error = there && not error

-- What the calls on a directory report.
pub record DirectoryCalls : Type 0 where
  pub there : Bool
  pub exists_error : Bool
  pub is_directory : Bool
  pub created : Bool
  pub create_error : Bool

unfoldable pub create_directory : DirectoryCalls → Bool
create_directory calls =
    if calls.there
    then not calls.exists_error && calls.is_directory
    else calls.created && not calls.create_error

-- An entry of a directory: whether it is one itself, and whether the question fails.
pub record Entry : Type 0 where
  pub path : Bytes
  pub is_directory : Bool
  pub error : Bool

-- The loop of ScanDirectory: the files added, and the result.
unfoldable pub scan_directory : List Entry → List Bytes → List Bytes × Bool
scan_directory [] files = (files, true)
scan_directory (entry ∷ entries) files =
    let files' = if entry.is_directory then files else files ++ entry.path ∷ [] in
    let rest = scan_directory entries files' in if entry.error then (files', false) else rest

unfoldable pub parent_path : Paths → Bytes → Bytes
parent_path paths path =
    if is_empty (paths.parent_path path) then codes "." else paths.parent_path path

-- `made` is the name that mkstemp makes of the pattern, `none` where it fails. The files change
-- by the new empty one, which is removed again where it cannot be closed.
unfoldable pub create_temp_file :
    DirectoryCalls
    → Option Bytes
    → Bool
    → Bytes
    → List (Bytes × Bytes)
    → List (Bytes × Bytes) × Option Bytes
unfolding create_directory
create_temp_file calls made closed prefix files =
    if is_some (find b'/' prefix)
    then (files, none)
    else if not (create_directory calls)
    then (files, none)
    else elim made [
      | none ↦ (files, none)
      | some path ↦
          if not closed
          then (erase path (assign path [] files), none)
          else (assign path [] files, some path)
    ]

unfoldable pub sync_directory : Bool → Bool → Bool → Bool
sync_directory opened synced closed = if not opened then false else synced && closed
