-- ===== src/Http/Range.antt =====
-- src/server/Range.hpp: the `Range` request header. An output pointer is a parameter passed in and
-- a result passed back; the callers always pass the address of a local.
pub mod Bounds
pub mod Selects
pub mod Shape
use asyn_log_system_cloud_st.Base.{
  ℕ, suc, ◌+◌, ◌-◌, Bool, true, false, ◌||◌, ◌&&◌, not, Option, none, some, [], ◌∷◌, Bytes, codes,
  bytes_eq, find, length, take, drop, is_empty, is_some, leb, ltb, ◌==◌, if◌then◌else◌, u64_mod,
  add64, sub64,
}
use asyn_log_system_cloud_st.Base.Decimal.{from_chars}

pub data RangeStatus : Type 0 where
  ignore partial unsatisfiable : RangeStatus

pub record ByteRange : Type 0 where
  pub status : RangeStatus
  pub offset : ℕ
  pub length : ℕ

-- What a default-constructed `ByteRange` holds.
abbrev pub ignored : ByteRange
ignored = record { status = ignore; offset = 0; length = 0 }

abbrev pub unsatisfied : ByteRange
unsatisfied = record { status = unsatisfiable; offset = 0; length = 0 }

-- `value` is `*value` before the call; the second result is `*value` after it.
unfoldable pub parse_unsigned : Bytes → ℕ → Bool × ℕ
parse_unsigned text value =
    if is_empty text
    then (false, value)
    else let (result, rest) = from_chars u64_mod text in
      elim result [ none ↦ (false, value) | some n ↦ (is_empty rest, n) ]

-- `bytes=-n`: the last n bytes.
suffix_range : Bool × ℕ → ℕ → ByteRange
suffix_range (read, suffix_length) file_size =
    if not read
    then ignored
    else if (file_size == 0) || (suffix_length == 0)
    then unsatisfied
    else let n = if leb file_size suffix_length then file_size else suffix_length in
      record { status = partial; offset = sub64 file_size n; length = n }

-- The checks on `start` and `end` once both are read.
clamp_range : ℕ → ℕ → ℕ → ByteRange
clamp_range start end_ file_size =
    if ltb end_ start
    then unsatisfied
    else let last = if leb file_size end_ then sub64 file_size 1 else end_ in
      record { status = partial; offset = start; length = add64 (sub64 last start) 1 }

-- `bytes=a-` and `bytes=a-b`, once `a` is read.
start_range : Bool × ℕ → Bytes → ℕ → ByteRange
unfolding clamp_range
start_range (read, start) end_text file_size =
    if not read
    then ignored
    else if (file_size == 0) || leb file_size start
    then unsatisfied
    else let end_of_file = sub64 file_size 1 in
      let (read_end, end_) =
        if is_empty end_text then (true, end_of_file) else parse_unsigned end_text end_of_file in
      if not read_end then ignored else clamp_range start end_ file_size

parse_bounds : Bytes → Bytes → ℕ → ByteRange
unfolding suffix_range start_range
parse_bounds start_text end_text file_size =
    if is_empty start_text
    then suffix_range (parse_unsigned end_text 0) file_size
    else start_range (parse_unsigned start_text 0) end_text file_size

split_at_dash : Option ℕ → Bytes → ℕ → ByteRange
unfolding parse_bounds
split_at_dash none value file_size = ignored
split_at_dash (some dash) value file_size =
    if is_some (find b'-' (drop (suc dash) value))
    then ignored
    else parse_bounds (take dash value) (drop (suc dash) value) file_size

parse_value : Bytes → ℕ → ByteRange
unfolding split_at_dash
parse_value value file_size =
    if is_empty value || is_some (find b',' value)
    then ignored
    else split_at_dash (find b'-' value) value file_size

abbrev pub prefix : Bytes
prefix = codes "bytes="

-- `header.compare(0, 6, prefix)` compares at most six bytes of the header with the prefix.
unfoldable pub parse_range_header : Bytes → ℕ → ByteRange
unfolding parse_value
parse_range_header header file_size =
    if bytes_eq (take (length prefix) header) prefix
    then parse_value (drop (length prefix) header) file_size
    else ignored
