-- ===== src/Base/Decimal.antt =====
-- The decimal conversions of the standard library that the program uses: `std::to_string` and
-- `std::from_chars` on unsigned numbers.
use asyn_log_system_cloud_st.Base.Tests.{ltb, leb, if◌then◌else◌, Bool-cases, ltb→lt, lt→ltb}
use asyn_log_system_cloud_st.Base.Lists.{is_empty, is_empty-append, All, All-append}
use asyn_log_system_cloud_st.Base.Text.{Bytes, Lacks}
use Prim.Native.Nat.{ℕ, zero, suc, ◌+◌, ◌-◌, ◌*◌, ◌/◌, ◌%◌, ◌<◌, ◌≤◌}
use mathlib.Core.Path.{◌≡◌, refl}
use mathlib.Core.Logic.{◌⊎◌, inl, inr}
use mathlib.Core.Bool.{Bool, true, false, ◌&&◌}
use mathlib.Core.List.{[], ◌∷◌, ◌++◌}
use mathlib.Core.Option.{Option, none, some}
use native.Mathlib.Omega.{arith}

unfoldable pub is_digit : ℕ → Bool
is_digit c = leb b'0' c && leb c b'9'

abbrev pub IsDigit : ℕ → Type 0
IsDigit c = (b'0' ≤ c) × (c ≤ b'9')

digits_of : ℕ → ℕ → Bytes
digits_of zero n = []
digits_of (suc fuel) n =
    let front = digits_of fuel (n / 10) in
    if ltb n 10 then (b'0' + n) ∷ [] else front ++ ((b'0' + n % 10) ∷ [])

-- A number below 10 ^ k has at most k digits, and n < 10 ^ (n + 1).
unfoldable pub to_string : ℕ → Bytes
unfolding digits_of
to_string n = digits_of (suc n) n

-- The longest run of digits, and what follows it.
unfoldable pub scan : ℕ → Bytes → ℕ × Bytes
unfolding is_digit
scan acc [] = (acc, [])
scan acc (c ∷ cs) = if is_digit c then scan (acc * 10 + (c - b'0')) cs else (acc, c ∷ cs)

abbrev starts_digit : Bytes → Bool
starts_digit [] = false
starts_digit (c ∷ cs) = is_digit c

-- `std::from_chars(begin, end, value)` for an unsigned type of `bound` values: the value, or `none`
-- where `ec` reports an error and the value is left alone, with the text behind `ptr`.
unfoldable pub from_chars : ℕ → Bytes → Option ℕ × Bytes
unfolding scan
from_chars bound text =
    let (n, rest) = scan 0 text in
    if starts_digit text then if ltb n bound then (some n, rest) else (none, rest) else (none, text)

digits_of-IsDigit : (fuel n : ℕ) → All IsDigit (digits_of fuel n)
unfolding digits_of
digits_of-IsDigit zero n = tt
digits_of-IsDigit (suc fuel) n = elim (Bool-cases (ltb n 10)) [
  | inl small ↦ rw small (omega (arith, ltb→lt n 10 small))
  | inr large ↦
      let front = digits_of-IsDigit fuel (n / 10) in
      rw large (All-append IsDigit (digits_of fuel (n / 10)) _ front (omega arith))
]

pub to_string-IsDigit : (n : ℕ) → All IsDigit (to_string n)
unfolding to_string
to_string-IsDigit n = digits_of-IsDigit (suc n) n

scan-append :
    (acc : ℕ) (xs ys : Bytes) → All IsDigit xs → scan acc (xs ++ ys) ≡ scan (scan acc xs).0 ys
unfolding scan
scan-append acc [] ys h = refl
scan-append acc (c ∷ cs) ys h = ground (arith, scan-append (acc * 10 + (c - b'0')) cs ys h.1)

scan-digits_of : (fuel n : ℕ) → n < fuel → scan 0 (digits_of fuel n) ≡ (n, [])
unfolding digits_of scan
scan-digits_of zero n h = elim h [ ]
scan-digits_of (suc fuel) n h =
    let front = digits_of-IsDigit fuel (n / 10) in
    ground (
      arith,
      scan-append 0 (digits_of fuel (n / 10)) ((b'0' + n % 10) ∷ []) front,
      scan-digits_of fuel (n / 10),
    )

starts_digit-append :
    (xs : Bytes) (c : ℕ) → All IsDigit xs → IsDigit c → starts_digit (xs ++ c ∷ []) ≡ true
unfolding is_digit
starts_digit-append [] c h k = ground arith
starts_digit-append (x ∷ xs) c h k = ground arith

pub starts_digit-to_string : (n : ℕ) → starts_digit (to_string n) ≡ true
unfolding to_string is_digit
starts_digit-to_string n =
    let front = digits_of-IsDigit n (n / 10) in
    ground (arith, starts_digit-append (digits_of n (n / 10)) (b'0' + n % 10) front)

pub to_string-ne-empty : (n : ℕ) → is_empty (to_string n) ≡ false
unfolding to_string
to_string-ne-empty n = ground (arith, is_empty-append (digits_of n (n / 10)) (b'0' + n % 10) [])

-- Reading back what `to_string` printed.
pub from_chars-to_string : (bound n : ℕ) → n < bound → from_chars bound (to_string n) ≡ (some n, [])
unfolding from_chars
from_chars-to_string bound n h = rw (starts_digit-to_string n, scanned, lt→ltb n bound h)
  where
    scanned : scan 0 (to_string n) ≡ (n, [])
    scanned = unfold to_string in scan-digits_of (suc n) n (omega arith)

pub Digits-lack : (c : ℕ) (xs : Bytes) → (c < b'0') ⊎ (b'9' < c) → All IsDigit xs → Lacks c xs
Digits-lack c [] o h = tt
Digits-lack c (x ∷ xs) o h = (omega arith, Digits-lack c xs o h.1)
