-- ===== src/Http/Url/Safety.antt =====
-- src/server/Util.hpp: what a decoded and what an encoded text cannot contain.
use asyn_log_system_cloud_st.Base.{
  ℕ, ◌/◌, ◌%◌, ◌<◌, ◌≡◌, ◌≢◌, ◌⊎◌, refl, Bool, true, ◌&&◌, ◌||◌, some, [], ◌∷◌, ◌++◌, Bytes, IsByte,
  All, All-append, Lacks, get_or, ◌==◌, Bool-cases, Option-cases, inl, inr, arith,
}
use asyn_log_system_cloud_st.Http.Url.{
  decode_pair, decode_loop, url_decode, hex, is_unreserved, encode_byte, url_encode,
}
use asyn_log_system_cloud_st.Base.Tables.{all_below, all_below_sound}

decode_pair-ne-zero : (h l d : ℕ) → decode_pair h l ≡ some d → d ≢ 0
unfolding decode_pair
decode_pair-ne-zero h l d e z = ground arith

Lacks-snoc : (c d : ℕ) (xs : Bytes) → Lacks c xs → d ≢ c → Lacks c (xs ++ d ∷ [])
Lacks-snoc c d xs h n = All-append (λ x. x ≢ c) xs (d ∷ []) h (n, tt)

decode_loop-Lacks :
    (input output : Bytes) → Lacks 0 input → Lacks 0 output → Lacks 0 (decode_loop output input).1
unfolding decode_loop
decode_loop-Lacks [] output h k = k
decode_loop-Lacks (c ∷ []) output h k = elim (Bool-cases (c == b'%')) [
  | inl cut ↦ rw cut k
  | inr plain ↦ rw plain (Lacks-snoc 0 c output k h.0)
]
decode_loop-Lacks (c ∷ x ∷ []) output h k =
    let rest = decode_loop-Lacks (x ∷ []) (output ++ c ∷ []) h.1 (Lacks-snoc 0 c output k h.0) in
    elim (Bool-cases (c == b'%')) [ inl cut ↦ rw cut k | inr plain ↦ rw plain rest ]
decode_loop-Lacks (c ∷ x ∷ y ∷ rest) output h k =
    let literal =
      decode_loop-Lacks (x ∷ y ∷ rest) (output ++ c ∷ []) h.1 (Lacks-snoc 0 c output k h.0) in
    let escape = λ (d : ℕ) (n : d ≢ 0).
      decode_loop-Lacks rest (output ++ d ∷ []) h.1.1.1 (Lacks-snoc 0 d output k n) in
    elim (Bool-cases (c == b'%')) [
      | inr plain ↦ rw (plain, decode_loop) literal
      | inl percent ↦ elim (Option-cases (decode_pair x y)) [
        | inl bad ↦ rw (percent, bad, decode_loop) k
        | inr (d, good) ↦
            rw (percent, good, decode_loop) (escape d (decode_pair-ne-zero x y d good))
      ]
    ]

-- A text with no byte 0 decodes, in full or up to the first bad escape, to a text with no byte 0:
-- an escape cannot cut a path short where it is handed on as a C string.
pub url_decode-Lacks : (input : Bytes) → Lacks 0 input → Lacks 0 (url_decode input).1
unfolding url_decode
url_decode-Lacks input h = decode_loop-Lacks input [] h tt

-- What may stand in an encoded text: letters, digits, `-_.~` and `%`, and the slash where it is
-- kept.
abbrev pub IsUrlByte : Bool → ℕ → Type 0
IsUrlByte preserve_slash b =
    (is_unreserved b ≡ true) ⊎ (b ≡ b'%') ⊎ ((preserve_slash ≡ true) × (b ≡ b'/'))

hex_digit : (i : ℕ) → i < 16 → is_unreserved (get_or hex i 0) ≡ true
hex_digit i h =
    all_below_sound 16 (λ j. is_unreserved (get_or hex j 0)) i
      (unfold all_below is_unreserved in refl) h

encode_byte-IsUrlByte :
    (preserve_slash : Bool) (ch : ℕ)
    → ch < 256
    → All (IsUrlByte preserve_slash) (encode_byte preserve_slash ch)
unfolding encode_byte
encode_byte-IsUrlByte preserve_slash ch h =
    elim (Bool-cases (is_unreserved ch || (preserve_slash && (ch == b'/')))) [
      | inl plain ↦ rw plain (ground arith, tt)
      | inr escaped ↦ rw escaped (
        inr (inl refl),
        (inl (hex_digit (ch / 16) (omega arith)), (inl (hex_digit (ch % 16) (omega arith)), tt)),
      )
    ]

-- An encoded text holds only unreserved characters and escapes, and slashes where they are kept:
-- no control character, quote, space or bracket of the text reaches a header or a page through it.
pub url_encode-IsUrlByte :
    (input : Bytes) (preserve_slash : Bool)
    → All IsByte input
    → All (IsUrlByte preserve_slash) (url_encode input preserve_slash)
unfolding url_encode
url_encode-IsUrlByte [] preserve_slash h = tt
url_encode-IsUrlByte (ch ∷ input) preserve_slash h =
    All-append (IsUrlByte preserve_slash) (encode_byte preserve_slash ch) _
      (encode_byte-IsUrlByte preserve_slash ch h.0) (url_encode-IsUrlByte input preserve_slash h.1)
