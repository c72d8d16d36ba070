-- ===== src/Http/Url/RoundTrip.antt =====
-- src/server/Util.hpp: `UrlDecode` reads back what `UrlEncode` wrote.
use asyn_log_system_cloud_st.Base.{
  ℕ, ◌/◌, ◌%◌, ◌<◌, ◌≡◌, ◌≢◌, refl, Bool, true, ◌&&◌, ◌||◌, append-nil, none, some, [], ◌∷◌, ◌++◌,
  ◌∙◌, Bytes, All, get_or, ◌==◌, Bool-cases, inl, inr, arith, append_assoc,
}
use asyn_log_system_cloud_st.Base.Tables.{all_below, all_below_sound}
use asyn_log_system_cloud_st.Http.Url.{
  from_hex, decode_pair, decode_loop, url_decode, hex, is_unreserved, encode_byte, url_encode,
}

-- A byte that a C string can hold.
abbrev pub IsTextByte : ℕ → Type 0
IsTextByte b = (0 < b) × (b < 256)

-- Whether a byte is read back from the two digits that are written for it.
pair_ok : ℕ → Bool
pair_ok ch = elim (decode_pair (get_or hex (ch / 16) 0) (get_or hex (ch % 16) 0)) [
  | none ↦ ch == 0
  | some decoded ↦ decoded == ch
]

pair_table : all_below 256 pair_ok ≡ true
unfolding all_below pair_ok decode_pair from_hex
pair_table = refl

decode_pair-hex :
    (ch : ℕ)
    → IsTextByte ch
    → decode_pair (get_or hex (ch / 16) 0) (get_or hex (ch % 16) 0) ≡ some ch
unfolding pair_ok
decode_pair-hex ch h = ground (arith, all_below_sound 256 pair_ok ch pair_table)

-- One round of the loop on a byte that stands for itself, and on an escape.
pub decode_loop_plain :
    (c : ℕ) (output rest : Bytes)
    → c ≢ b'%'
    → decode_loop output (c ∷ rest) ≡ decode_loop (output ++ c ∷ []) rest
unfolding decode_loop
decode_loop_plain c output [] n = ground arith
decode_loop_plain c output (h ∷ []) n = ground arith
decode_loop_plain c output (h ∷ l ∷ rest) n = ground arith

pub decode_loop_escape :
    (h l d : ℕ) (output rest : Bytes)
    → decode_pair h l ≡ some d
    → decode_loop output (b'%' ∷ h ∷ l ∷ rest) ≡ decode_loop (output ++ d ∷ []) rest
unfolding decode_loop
decode_loop_escape h l d output rest e = ground arith

unreserved-ne-percent :
    (preserve_slash : Bool) (ch : ℕ)
    → (is_unreserved ch || (preserve_slash && (ch == b'/'))) ≡ true
    → ch ≢ b'%'
unfolding is_unreserved
unreserved-ne-percent preserve_slash ch h e = ground arith

decode_loop-encode_byte :
    (preserve_slash : Bool) (ch : ℕ) (output rest : Bytes)
    → IsTextByte ch
    → decode_loop output (encode_byte preserve_slash ch ++ rest)
      ≡ decode_loop (output ++ ch ∷ []) rest
unfolding encode_byte
decode_loop-encode_byte preserve_slash ch output rest h =
    elim (Bool-cases (is_unreserved ch || (preserve_slash && (ch == b'/')))) [
      | inl plain ↦
          rw plain
            (decode_loop_plain ch output rest (unreserved-ne-percent preserve_slash ch plain))
      | inr escaped ↦ rw escaped (decode_loop_escape _ _ ch output rest (decode_pair-hex ch h))
    ]

decode_loop-url_encode :
    (input output : Bytes) (preserve_slash : Bool)
    → All IsTextByte input
    → decode_loop output (url_encode input preserve_slash) ≡ (true, output ++ input)
unfolding url_encode
decode_loop-url_encode [] output preserve_slash h = unfold decode_loop in rw append-nil
decode_loop-url_encode (ch ∷ input) output preserve_slash h =
    decode_loop-encode_byte preserve_slash ch output (url_encode input preserve_slash) h.0
    ∙ decode_loop-url_encode input (output ++ ch ∷ []) preserve_slash h.1
    ∙ rw append_assoc

-- Whether the slash is kept or escaped, a text without the byte 0 is read back as it was.
pub url_decode-url_encode :
    (input : Bytes) (preserve_slash : Bool)
    → All IsTextByte input
    → url_decode (url_encode input preserve_slash) ≡ (true, input)
unfolding url_decode
url_decode-url_encode input preserve_slash h = decode_loop-url_encode input [] preserve_slash h
