-- ===== src/Http/Range/Bounds.antt =====
-- src/server/Range.hpp: the part that `parse_range_header` chooses lies inside the file.
use asyn_log_system_cloud_st.Base.{
  ℕ, suc, ◌+◌, ◌≤◌, ◌<◌, ◌≡◌, Bool, Option, none, some, Bytes, find, take, drop, length, IsU64,
  arith, add64, sub64,
}
use asyn_log_system_cloud_st.Http.Range.{
  partial, ByteRange, parse_unsigned, suffix_range, clamp_range, start_range, split_at_dash, prefix,
  parse_range_header,
}

-- A served part is not empty and lies inside the file.
abbrev pub Within : ℕ → ByteRange → Type 0
Within size r = r.status ≡ partial → (0 < r.length) × (r.offset + r.length ≤ size)

suffix_range-Within : (p : Bool × ℕ) (size : ℕ) → IsU64 size → Within size (suffix_range p size)
unfolding suffix_range sub64
suffix_range-Within (b, n) size h = ground arith

clamp_range-Within :
    (start end_ size : ℕ) → IsU64 size → start < size → Within size (clamp_range start end_ size)
unfolding clamp_range add64 sub64
clamp_range-Within start end_ size h k = ground arith

start_range-Within :
    (p : Bool × ℕ) (end_text : Bytes) (size : ℕ)
    → IsU64 size
    → Within size (start_range p end_text size)
unfolding start_range
start_range-Within (b, start) end_text size h = ground (
  arith,
  clamp_range-Within start (sub64 size 1) size h,
  clamp_range-Within start (parse_unsigned end_text (sub64 size 1)).1 size h,
)

split_at_dash-Within :
    (o : Option ℕ) (value : Bytes) (size : ℕ)
    → IsU64 size
    → Within size (split_at_dash o value size)
unfolding split_at_dash
split_at_dash-Within none value size h = λ e. cc
split_at_dash-Within (some dash) value size h = ground (
  arith,
  suffix_range-Within (parse_unsigned (drop (suc dash) value) 0) size h,
  start_range-Within (parse_unsigned (take dash value) 0) (drop (suc dash) value) size h,
)

-- Whatever the header says, a part that is served is not empty and lies inside the file.
pub parse_range_header-Within :
    (header : Bytes) (size : ℕ)
    → IsU64 size
    → (parse_range_header header size).status ≡ partial
    → (0 < (parse_range_header header size).length)
      × ((parse_range_header header size).offset + (parse_range_header header size).length ≤ size)
unfolding parse_range_header
parse_range_header-Within header size h = ground (
  arith,
  split_at_dash-Within (find b'-' (drop (length prefix) header)) (drop (length prefix) header) size
      h,
)
