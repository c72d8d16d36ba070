-- ===== src/Log/FileFlush.antt =====
-- log_system/logs_code/LogFlush.hpp and the file helpers of Util.hpp: FileFlush, the flush policy,
-- the names of rolled files, and where the configuration is found. A file is its content; what the
-- calls report is an argument.
pub mod Names
use asyn_log_system_cloud_st.Base.{
  ℕ, ◌-◌, Bool, true, false, not, ◌&&◌, Option, none, some, List, [], ◌∷◌, ◌++◌, Bytes, codes,
  length, replicate, is_empty, leb, ◌==◌, if◌then◌else◌, add64, u64_mod,
}
use asyn_log_system_cloud_st.Base.Decimal.{to_string}
use asyn_log_system_cloud_st.Log.Settings.{JsonData}
use asyn_log_system_cloud_st.Log.Sink.{write_all}

-- Util::File::CreateDirectory.
unfoldable pub create_directory : Bytes → Bool → Bool → Bool → Bool → Bool → Bool
create_directory pathname there exists_error is_directory created create_error =
    if is_empty pathname
    then true
    else if there
    then not exists_error && is_directory
    else created && not create_error

-- The constructor: `directory` is whether the directory is there now, `opened` the content that
-- fopen appends to. `none` is an exception.
unfoldable pub new_file_flush : Bool → Option Bytes → Option Bytes
new_file_flush directory opened = if not directory then none else opened

-- ApplyFlushPolicy on an open file.
unfoldable pub apply_flush_policy : Option JsonData → Bool → Bool → Bool
apply_flush_policy none fflush_ok fsync_ok = false
apply_flush_policy (some conf) fflush_ok fsync_ok =
    if leb 1 conf.flush_log && not fflush_ok
    then false
    else if (conf.flush_log == 2) && not fsync_ok
    then false
    else true

-- FileFlush::Flush: a failed write leaves what it wrote.
unfoldable pub flush_file : (Bytes → ℕ) → Bool → Bytes → Bytes → Bytes
unfolding write_all
flush_file fwrite error file text = (write_all fwrite error file text).0

-- The clock's text by strftime and its microseconds, and the process.
pub record Moment : Type 0 where
  pub timestamp : Bytes
  pub micros : ℕ
  pub pid : ℕ

-- `std::setw(6) << std::setfill('0')`.
unfoldable pub pad : ℕ → Bytes
pad n = replicate (6 - length (to_string n)) b'0' ++ to_string n

-- The name of the next rolled file, and the sequence number behind it.
unfoldable pub create_filename : Bytes → Moment → ℕ → Bytes × ℕ
unfolding pad
create_filename basename now sequence = (
  basename
      ++ (b'-'
          ∷ (now.timestamp
              ++ (b'-'
                  ∷ (pad now.micros
                      ++ (b'-'
                          ∷ (to_string now.pid
                              ++ (b'-' ∷ (to_string sequence ++ codes ".log")))))))),
  add64 sequence 1,
)

-- Util::File::GetContent: `file` is `none` where it cannot be opened, `gcount` what the stream has
-- read.
unfoldable pub get_content : Option Bytes → ℕ → Option Bytes
get_content none gcount = none
get_content (some file) gcount =
    if leb u64_mod (length file)
    then none
    else if is_empty file
    then some []
    else if not (gcount == length file)
    then none
    else some file

-- The first candidate that exists, or the first one.
unfoldable pub first_existing : (Bytes → Bool) → List Bytes → Bytes → Bytes
first_existing exists [] fallback = fallback
first_existing exists (candidate ∷ candidates) fallback =
    if exists candidate then candidate else first_existing exists candidates fallback

unfoldable pub find_config_path : Option Bytes → (Bytes → Bool) → Bytes
unfolding first_existing
find_config_path env exists =
    let candidates =
      codes "../../log_system/logs_code/config.conf"
      ∷ codes "../logs_code/config.conf"
      ∷ codes "log_system/logs_code/config.conf"
      ∷ codes "config.conf"
      ∷ [] in
    let found = first_existing exists candidates (codes "../../log_system/logs_code/config.conf") in
    elim env [ none ↦ found | some path ↦ if is_empty path then found else path ]
