-- ===== src/Log/Buffer.antt =====
-- log_system/logs_code/AsyncBuffer.hpp: the byte buffer between the producers and the log thread.
-- A `std::vector<char>` is a list of byte values; `size_t` wraps at 2^64.
pub mod Growth
pub mod Contents
pub mod Push
use asyn_log_system_cloud_st.Base.{
  ℕ, zero, suc, ◌+◌, ◌-◌, ◌≤◌, Bool, true, false, Option, none, some, List, [], ◌∷◌, ◌++◌, Bytes,
  length, take, drop, replicate, ltb, leb, ◌==◌, if◌then◌else◌, u64_mod, add64, sub64, max,
}

-- The fields of `g_conf_data` that the buffer reads.
pub record BufferConfig : Type 0 where
  pub buffer_size : ℕ
  pub threshold : ℕ
  pub linear_growth : ℕ

pub record Buffer : Type 0 where
  pub buffer : Bytes
  pub write_pos : ℕ
  pub read_pos : ℕ

-- The exceptions; running out of memory is not modelled. `stuck` is none of them: the growth loop
-- ran out of fuel.
pub data Error : Type 0 where
  runtime_error invalid_argument length_error stuck : Error

pub data Result {ℓ} (A : Type ℓ) : Type ℓ where
  ok : A → Result A
  err : Error → Result A

-- What the caller passes as `data`: a null pointer, or the `len` bytes behind the pointer.
pub data Source : Type 0 where
  null : ℕ → Source
  bytes : Bytes → Source

-- `max_size()` of a vector of char.
abbrev pub max_size : ℕ
max_size = 9223372036854775807

-- The elements of a vector of which `resize` makes `n`: new ones are 0.
unfoldable pub resized : ℕ → Bytes → Bytes
resized n xs = if leb n (length xs) then take n xs else xs ++ replicate (n - length xs) 0

-- `buffer_.resize(n)`.
unfoldable pub resize : ℕ → Bytes → Result Bytes
resize n xs = if ltb max_size n then err length_error else ok (resized n xs)

-- The constructor; `none` is `g_conf_data == nullptr`.
unfoldable pub new : Option BufferConfig → Result Buffer
unfolding resize resized
new none = err runtime_error
new (some c) = if c.buffer_size == 0 then err runtime_error else elim (resize c.buffer_size []) [
  | err e ↦ err e
  | ok elements ↦ ok (record { buffer = elements; write_pos = 0; read_pos = 0 })
]

unfoldable pub is_empty : Buffer → Bool
is_empty b = b.write_pos == b.read_pos

unfoldable pub capacity : Buffer → ℕ
capacity b = length b.buffer

unfoldable pub writeable_size : Buffer → ℕ
writeable_size b = sub64 (length b.buffer) b.write_pos

unfoldable pub readable_size : Buffer → ℕ
readable_size b = sub64 b.write_pos b.read_pos

-- The bytes that `Begin()` and `ReadableSize()` hand to the flush callback.
unfoldable pub contents : Buffer → Bytes
contents b = take (b.write_pos - b.read_pos) (drop b.read_pos b.buffer)

-- The loop `while (new_size < required)`, with fuel; `none` means that the fuel ran out.
unfoldable pub grow : BufferConfig → ℕ → ℕ → ℕ → Option ℕ
grow c zero required new_size = none
grow c (suc fuel) required new_size =
    let growth = if ltb new_size c.threshold then max new_size 1 else c.linear_growth in
    let rest = grow c fuel required (add64 new_size growth) in
    if ltb new_size required
    then if ltb (u64_mod - 1 - new_size) growth then some required else rest
    else some new_size

-- Each round adds at least 1, so one round for each missing byte and one more are enough.
unfoldable pub ensure_writable : BufferConfig → Buffer → ℕ → Result Buffer
ensure_writable c b len =
    if leb len (writeable_size b)
    then ok b
    else if ltb (u64_mod - 1 - len) b.write_pos
    then err length_error
    else let required = add64 b.write_pos len in
      elim (grow c (suc required) required (length b.buffer)) [
        | none ↦ err stuck
        | some new_size ↦ elim (resize new_size b.buffer) [
          | err e ↦ err e
          | ok elements ↦ ok (record b { buffer = elements })
        ]
      ]

-- `std::copy_n(data, len, buffer_.data() + write_pos_)`.
unfoldable pub write_at : ℕ → Bytes → Bytes → Bytes
write_at pos items xs = take pos xs ++ (items ++ drop (pos + length items) xs)

unfoldable pub append : Buffer → Bytes → Buffer
append b items = record {
  buffer = write_at b.write_pos items b.buffer;
  write_pos = add64 b.write_pos (length items);
  read_pos = b.read_pos;
}

unfoldable pub push : BufferConfig → Buffer → Source → Result Buffer
push c b (null len) = if len == 0 then ok b else err invalid_argument
push c b (bytes items) =
    if length items == 0
    then ok b
    else elim (ensure_writable c b (length items)) [ err e ↦ err e | ok b' ↦ ok (append b' items) ]

-- Both buffers after `b.Swap(other)`.
unfoldable pub swap : Buffer → Buffer → Buffer × Buffer
swap b other = (other, b)

unfoldable pub reset : Buffer → Buffer
reset b = record b { write_pos = 0; read_pos = 0 }
