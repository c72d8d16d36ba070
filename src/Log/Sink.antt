-- ===== src/Log/Sink.antt =====
-- log_system/logs_code/LogFlush.hpp: FileFlush::WriteAll and RollFileFlush. A file is its content;
-- the names that CreateFilename makes from the time, the process and the counter are not modelled.
pub mod Rolled
use asyn_log_system_cloud_st.Base.{
  ℕ, zero, suc, ◌+◌, ◌-◌, min, Bool, true, false, not, ◌||◌, ◌&&◌, Option, none, some, List, [],
  ◌∷◌, ◌++◌, Bytes, length, take, drop, is_empty, leb, ◌==◌, if◌then◌else◌, add64,
}

-- The loop of WriteAll. `fwrite` is how many bytes of what is left one call writes. Each round
-- writes a byte at least, so one round more than there are bytes is enough.
unfoldable pub write_loop : (Bytes → ℕ) → ℕ → Bytes → Bytes → Bytes × Bool
write_loop fwrite zero file left = (file, false)
write_loop fwrite (suc fuel) file left =
    let count = fwrite left in
    let rest = write_loop fwrite fuel (file ++ take count left) (drop count left) in
    if is_empty left then (file, true) else if count == 0 then (file, false) else rest

-- `error` is `ferror(file) != 0`.
unfoldable pub write_all : (Bytes → ℕ) → Bool → Bytes → Bytes → Bytes × Bool
unfolding write_loop
write_all fwrite error file text =
    let (file', done) = write_loop fwrite (suc (length text)) file text in
    (file', done && not error)

-- `opened` is the content of the open file, `closed` those of the files before it.
pub record RollFileFlush : Type 0 where
  pub max_size : ℕ
  pub current_size : ℕ
  pub sequence : ℕ
  pub opened : Option Bytes
  pub closed : List Bytes

-- What the system reports: the content of a file that fopen opens (`none` is a failure), whether
-- its size can be read, the counts of fwrite, and ferror.
pub record SinkEvents : Type 0 where
  pub fopened : Option Bytes
  pub size_known : Bool
  pub fwrite : Bytes → ℕ
  pub error : Bool

-- The constructor throws for a maximum of 0.
unfoldable pub new : ℕ → Option RollFileFlush
new max_size =
    if max_size == 0
    then none
    else some
        (record { max_size = max_size; current_size = 0; sequence = 1; opened = none; closed = [] })

unfoldable pub close_file : RollFileFlush → RollFileFlush
close_file r = elim r.opened [
  | none ↦ r
  | some file ↦ record r { opened = none; closed = r.closed ++ file ∷ [] }
]

-- From `CreateFilename` on.
unfoldable pub open_file : SinkEvents → RollFileFlush → RollFileFlush × Bool
open_file ev r = elim ev.fopened [
  | none ↦ (record r { sequence = r.sequence + 1 }, false)
  | some file ↦ (
    record r {
      sequence = r.sequence + 1;
      opened = some file;
      current_size = if ev.size_known then length file else 0;
    },
    true,
  )
]

-- There is room in the open file.
unfoldable pub has_room : RollFileFlush → ℕ → Bool
has_room r incoming_size =
    (r.current_size == 0) || leb incoming_size (r.max_size - min r.current_size r.max_size)

unfoldable pub ensure_file : SinkEvents → RollFileFlush → ℕ → RollFileFlush × Bool
unfolding has_room close_file open_file
ensure_file ev r incoming_size = elim r.opened [
  | none ↦ open_file ev r
  | some file ↦ if has_room r incoming_size then (r, true) else open_file ev (close_file r)
]

-- What a write leaves: the file, and the new size where it was whole.
unfoldable pub after_write : RollFileFlush → ℕ → Bytes × Bool → RollFileFlush
after_write r incoming_size (file, done) =
    if done
    then record r { opened = some file; current_size = add64 r.current_size incoming_size }
    else record r { opened = some file }

-- The write to the open file.
unfoldable pub write_record : SinkEvents → Bytes → RollFileFlush → RollFileFlush
unfolding write_all after_write
write_record ev text r = elim r.opened [
  | none ↦ r
  | some file ↦ after_write r (length text) (write_all ev.fwrite ev.error file text)
]

unfoldable pub flush : SinkEvents → RollFileFlush → Bytes → RollFileFlush
unfolding ensure_file write_record
flush ev r text =
    let (r', ready) = ensure_file ev r (length text) in
    if ready then write_record ev text r' else r'
