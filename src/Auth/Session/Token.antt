-- ===== src/Auth/Session/Token.antt =====
-- src/server/Service.cpp, RandomToken: what a token looks like.
use mathlib.Core.Path.{ap₂}
use asyn_log_system_cloud_st.Base.{
  ℕ, ◌*◌, ◌/◌, ◌%◌, ◌≤◌, ◌<◌, ◌≡◌, refl, ◌⊎◌, [], ◌∷◌, Bytes, IsByte, All, get_or, length, arith,
  ◌&&◌, ◌||◌, leb, ◌==◌, none, some, Bool, false,
}
use asyn_log_system_cloud_st.Base.Tables.{all_below, all_below_sound}
use asyn_log_system_cloud_st.Http.Url.{from_hex}
use asyn_log_system_cloud_st.Auth.Session.{hex, to_hex, random_token}

-- 0 to 9 and a to f.
abbrev pub IsLowerHex : ℕ → Type 0
IsLowerHex c = ((b'0' ≤ c) × (c ≤ b'9')) ⊎ ((b'a' ≤ c) × (c ≤ b'f'))

lower_hex_test : ℕ → Bool
lower_hex_test c = (leb b'0' c && leb c b'9') || (leb b'a' c && leb c b'f')

hex_digit : (i : ℕ) → i < 16 → IsLowerHex (get_or hex i 0)
unfolding lower_hex_test
hex_digit i h =
    let test =
      all_below_sound 16 (λ j. lower_hex_test (get_or hex j 0)) i (unfold all_below in refl) h in
    ground arith

digit_reads : ℕ → Bool
digit_reads i = elim (from_hex (get_or hex i 0)) [ none ↦ false | some v ↦ v == i ]

hex-from_hex : (i : ℕ) → i < 16 → from_hex (get_or hex i 0) ≡ some i
unfolding digit_reads
hex-from_hex i h =
    let test = all_below_sound 16 digit_reads i (unfold all_below from_hex in refl) h in
    ground arith

hex-injective : (i j : ℕ) → i < 16 → j < 16 → get_or hex i 0 ≡ get_or hex j 0 → i ≡ j
hex-injective i j h k e = cc (hex-from_hex i h, hex-from_hex j k)

to_hex-IsLowerHex : (bytes : Bytes) → All IsByte bytes → All IsLowerHex (to_hex bytes)
unfolding to_hex
to_hex-IsLowerHex [] h = tt
to_hex-IsLowerHex (b ∷ bytes) h = (
  hex_digit (b / 16) (omega arith),
  (hex_digit (b % 16) (omega arith), to_hex-IsLowerHex bytes h.1),
)

length-to_hex : (bytes : Bytes) → length (to_hex bytes) ≡ 2 * length bytes
unfolding to_hex
length-to_hex [] = refl
length-to_hex (b ∷ bytes) = omega (arith, length-to_hex bytes)

to_hex-injective : (xs ys : Bytes) → All IsByte xs → All IsByte ys → to_hex xs ≡ to_hex ys → xs ≡ ys
unfolding to_hex
to_hex-injective [] [] h k e = refl
to_hex-injective [] (y ∷ ys) h k e = cc
to_hex-injective (x ∷ xs) [] h k e = cc
to_hex-injective (x ∷ xs) (y ∷ ys) h k e =
    let high = hex-injective (x / 16) (y / 16) (omega arith) (omega arith) (cc) in
    let low = hex-injective (x % 16) (y % 16) (omega arith) (omega arith) (cc) in
    ap₂ ◌∷◌ (omega arith) (to_hex-injective xs ys h.1 k.1 (cc))

-- A token is 64 lower-case hexadecimal digits, so it needs no quoting in a cookie, and 32 other
-- random bytes give another token.
pub random_token_lem :
    (xs ys : Bytes)
    → All IsByte xs
    → All IsByte ys
    → length xs ≡ 32
    → (t : Bytes) × (random_token (some xs) ≡ some t)
      × All IsLowerHex t
      × (length t ≡ 64)
      × (random_token (some ys) ≡ some t → ys ≡ xs)
unfolding random_token
random_token_lem xs ys h k n = (
  to_hex xs,
  refl,
  to_hex-IsLowerHex xs h,
  omega (arith, length-to_hex xs),
  λ e. to_hex-injective ys xs k h (cc),
)
