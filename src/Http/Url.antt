-- ===== src/Http/Url.antt =====
-- src/server/Util.hpp, FromHex, UrlDecode and UrlEncode. A text is a list of byte values; an output
-- pointer is a result, since the callers always pass the address of a local.
pub mod RoundTrip
pub mod Safety
use Prim.Native.Nat.{ℕ}
use asyn_log_system_cloud_st.Base.{
  ◌+◌, ◌-◌, ◌*◌, ◌/◌, ◌%◌, Bool, true, false, ◌||◌, ◌&&◌, Option, none, some, [], ◌∷◌, ◌++◌, Bytes,
  codes, get_or, leb, ◌==◌, if◌then◌else◌,
}

-- `none` is the answer `false`.
unfoldable pub from_hex : ℕ → Option ℕ
from_hex input =
    if leb b'A' input && leb input b'F'
    then some (input - b'A' + 10)
    else if leb b'a' input && leb input b'f'
    then some (input - b'a' + 10)
    else if leb b'0' input && leb input b'9'
    then some (input - b'0')
    else none

-- The byte that two hexadecimal digits stand for; `none` also for the byte 0.
unfoldable pub decode_pair : ℕ → ℕ → Option ℕ
decode_pair high_digit low_digit = elim (from_hex high_digit) [
  | none ↦ none
  | some high ↦ elim (from_hex low_digit) [
    | none ↦ none
    | some low ↦
        let decoded = (high * 16 + low) % 256 in if decoded == 0 then none else some decoded
  ]
]

-- The loop, from the bytes of `input` at index `i` on: the answer and `*output`.
unfoldable pub decode_loop : Bytes → Bytes → Bool × Bytes
decode_loop output [] = (true, output)
decode_loop output (c ∷ []) = if c == b'%' then (false, output) else (true, output ++ c ∷ [])
decode_loop output (c ∷ h ∷ []) =
    let literal = decode_loop (output ++ c ∷ []) (h ∷ []) in
    if c == b'%' then (false, output) else literal
decode_loop output (c ∷ h ∷ l ∷ rest) = elim (c == b'%') [
  | false ↦ decode_loop (output ++ c ∷ []) (h ∷ l ∷ rest)
  | true ↦ elim (decode_pair h l) [
    | none ↦ (false, output)
    | some decoded ↦ decode_loop (output ++ decoded ∷ []) rest
  ]
]

unfoldable pub url_decode : Bytes → Bool × Bytes
unfolding decode_loop decode_pair from_hex
url_decode input = decode_loop [] input

abbrev pub hex : Bytes
hex = codes "0123456789ABCDEF"

unfoldable pub is_unreserved : ℕ → Bool
is_unreserved ch =
    (leb b'A' ch && leb ch b'Z')
    || (leb b'a' ch && leb ch b'z')
    || (leb b'0' ch && leb ch b'9')
    || (ch == b'-')
    || (ch == b'_')
    || (ch == b'.')
    || (ch == b'~')

-- `ch >> 4` and `ch & 0x0f`.
encode_byte : Bool → ℕ → Bytes
encode_byte preserve_slash ch =
    if is_unreserved ch || (preserve_slash && (ch == b'/'))
    then ch ∷ []
    else b'%' ∷ get_or hex (ch / 16) 0 ∷ get_or hex (ch % 16) 0 ∷ []

unfoldable pub url_encode : Bytes → Bool → Bytes
unfolding encode_byte is_unreserved
url_encode [] preserve_slash = []
url_encode (ch ∷ input) preserve_slash =
    encode_byte preserve_slash ch ++ url_encode input preserve_slash
