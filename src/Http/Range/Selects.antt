-- ===== src/Http/Range/Selects.antt =====
-- src/server/Range.hpp: the bytes that `parse_range_header` chooses for a well-formed header,
-- against a description of the positions that the header asks for.
use asyn_log_system_cloud_st.Base.{
  ℕ, suc, ◌+◌, ◌≤◌, ◌<◌, ◌≡◌, ◌↔◌, ◌⊎◌, inl, inr, refl, true, [], ◌∷◌, ◌++◌, Bytes, Lacks,
  find-Lacks, find-append, length, IsU64, u64_mod, arith, Bool-cases, leb, bytes_eq,
  is_empty-append, append-nil, ltb, ◌==◌, ◌||◌, add64, sub64, All-append, take-append, drop-append,
}
use asyn_log_system_cloud_st.Base.Decimal.{
  to_string, to_string-IsDigit, to_string-ne-empty, from_chars-to_string, Digits-lack,
}
use asyn_log_system_cloud_st.Http.Range.{
  partial, unsatisfiable, ByteRange, parse_unsigned, suffix_range, clamp_range, start_range,
  parse_bounds, prefix, parse_range_header,
}

-- The three forms of a single byte range.
pub data Request : Type 0 where
  from_to : ℕ → ℕ → Request
  from : ℕ → Request
  last : ℕ → Request

abbrev first_text : Request → Bytes
first_text (from_to a b) = to_string a
first_text (from a) = to_string a
first_text (last n) = []

abbrev second_text : Request → Bytes
second_text (from_to a b) = to_string b
second_text (from a) = []
second_text (last n) = to_string n

-- The header field of a request.
abbrev pub header_of : Request → Bytes
header_of r = prefix ++ (first_text r ++ b'-' ∷ second_text r)

-- Every number of the request is a uint64_t.
abbrev pub Fits : Request → Type 0
Fits (from_to a b) = IsU64 a × IsU64 b
Fits (from a) = IsU64 a
Fits (last n) = IsU64 n

-- Position `i` of a file of `size` bytes is asked for.
abbrev pub Selects : Request → ℕ → ℕ → Type 0
Selects (from_to a b) size i = (a ≤ i) × (i ≤ b) × (i < size)
Selects (from a) size i = (a ≤ i) × (i < size)
Selects (last n) size i = (i < size) × (size ≤ i + n)

-- The answer is the part that holds exactly the positions asked for, or a refusal if there is none.
abbrev pub Answers : Request → ℕ → ByteRange → Type 0
Answers r size p =
    ((p.status ≡ partial)
      × ((i : ℕ) → Selects r size i ↔ ((p.offset ≤ i) × (i < p.offset + p.length))))
    ⊎ ((p.status ≡ unsatisfiable) × ((i : ℕ) → ¬ Selects r size i))

parse_unsigned-to_string : (n value : ℕ) → IsU64 n → parse_unsigned (to_string n) value ≡ (true, n)
unfolding parse_unsigned
parse_unsigned-to_string n value h =
    ground (arith, to_string-ne-empty n, from_chars-to_string u64_mod n h)

suffix_range-Answers :
    (n size : ℕ) → IsU64 size → Answers (last n) size (suffix_range (true, n) size)
unfolding suffix_range sub64
suffix_range-Answers n size h = elim (Bool-cases ((size == 0) || (n == 0))) [
  | inl nothing ↦ rw nothing (inr (refl, λ i s. ground arith))
  | inr some_bytes ↦ rw some_bytes (inl (refl, λ i. ground arith))
]

clamp_range-Answers :
    (a b size : ℕ) → IsU64 size → a < size → Answers (from_to a b) size (clamp_range a b size)
unfolding clamp_range add64 sub64
clamp_range-Answers a b size h k = elim (Bool-cases (ltb b a)) [
  | inl none_left ↦ rw none_left (inr (refl, λ i s. ground arith))
  | inr some_left ↦ rw some_left (inl (refl, λ i. ground arith))
]

-- The header splits where the one dash stands.
parse_range_header-split :
    (a b : Bytes) (size : ℕ)
    → Lacks b',' a
    → Lacks b',' b
    → Lacks b'-' a
    → Lacks b'-' b
    → parse_range_header (prefix ++ (a ++ b'-' ∷ b)) size ≡ parse_bounds a b size
unfolding parse_range_header bytes_eq
parse_range_header-split a b size ca cb da db = ground (
  arith,
  is_empty-append a b'-' b,
  find-Lacks b',' (a ++ b'-' ∷ b) (All-append _ a (b'-' ∷ b) ca (omega arith, cb)),
  find-append b'-' a b da,
  find-Lacks b'-' b db,
  drop-append (suc (length a)) 1 a (b'-' ∷ b) (omega arith),
  take-append (length a) 0 a (b'-' ∷ b) (omega arith),
  append-nil a,
)

start_range-Answers_from_to :
    (a b size : ℕ)
    → IsU64 size
    → IsU64 b
    → Answers (from_to a b) size (start_range (true, a) (to_string b) size)
unfolding start_range
start_range-Answers_from_to a b size h hb = elim (Bool-cases ((size == 0) || leb size a)) [
  | inl beyond ↦ rw beyond (inr (refl, λ i s. ground arith))
  | inr inside ↦
      rw (inside, to_string-ne-empty b, parse_unsigned-to_string b (sub64 size 1) hb)
        (clamp_range-Answers a b size h (ground arith))
]

start_range-Answers_from :
    (a size : ℕ) → IsU64 size → Answers (from a) size (start_range (true, a) [] size)
unfolding start_range clamp_range add64 sub64
start_range-Answers_from a size h = elim (Bool-cases ((size == 0) || leb size a)) [
  | inl beyond ↦ rw beyond (inr (refl, λ i s. ground arith))
  | inr inside ↦ ground arith
]

no_comma : (n : ℕ) → Lacks b',' (to_string n)
no_comma n = Digits-lack b',' (to_string n) (inl (omega arith)) (to_string-IsDigit n)

no_dash : (n : ℕ) → Lacks b'-' (to_string n)
no_dash n = Digits-lack b'-' (to_string n) (inl (omega arith)) (to_string-IsDigit n)

-- A header that asks for one range, in numbers below 2^64, is answered by the part that holds
-- exactly the positions asked for, or as unsatisfiable if the file holds none of them. It is never
-- ignored. The file's size is below 2^64.
pub parse_range_header-Answers :
    (r : Request) (size : ℕ)
    → Fits r
    → IsU64 size
    → Answers r size (parse_range_header (header_of r) size)
unfolding parse_bounds
parse_range_header-Answers (from_to a b) size (ha, hb) h =
    rw
      (
        parse_range_header-split (to_string a) (to_string b) size (no_comma a) (no_comma b)
            (no_dash a) (no_dash b),
        to_string-ne-empty a,
        parse_unsigned-to_string a 0 ha,
      )
      (start_range-Answers_from_to a b size h hb)
parse_range_header-Answers (from a) size ha h =
    rw
      (
        parse_range_header-split (to_string a) [] size (no_comma a) tt (no_dash a) tt,
        to_string-ne-empty a,
        parse_unsigned-to_string a 0 ha,
      )
      (start_range-Answers_from a size h)
parse_range_header-Answers (last n) size hn h =
    rw
      (
        parse_range_header-split [] (to_string n) size tt (no_comma n) tt (no_dash n),
        parse_unsigned-to_string n 0 hn,
      )
      (suffix_range-Answers n size h)
