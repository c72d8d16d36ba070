-- ===== src/Log/FileFlush/Names.antt =====
-- log_system/logs_code/LogFlush.hpp, CreateFilename: no two rolled files get the same name.
use asyn_log_system_cloud_st.Base.{
  ℕ, suc, ◌+◌, ◌<◌, ◌≡◌, ◌≢◌, refl, sym, ap, subst, ◌∙◌, inl, some, List, [], ◌∷◌, ◌++◌,
  append_assoc, Bytes, codes, length, length-append, Lacks, All, All-append, IsU64, add64-eq-add,
  arith,
}
use asyn_log_system_cloud_st.Base.Decimal.{
  to_string, from_chars, from_chars-to_string, to_string-IsDigit, Digits-lack,
}
use asyn_log_system_cloud_st.Log.FileFlush.{Moment, pad, create_filename}

inside : (c : ℕ) (xs ys : Bytes) → Lacks c (xs ++ c ∷ ys) → ⊥
inside c [] ys l = l.0 refl
inside c (x ∷ xs) ys l = inside c xs ys l.1

-- Behind the last occurrence of a byte two equal texts are equal.
last_part :
    (c : ℕ) (xs ys as_ bs : Bytes)
    → Lacks c as_
    → Lacks c bs
    → xs ++ c ∷ as_ ≡ ys ++ c ∷ bs
    → as_ ≡ bs
last_part c [] [] as_ bs l k e = cc
last_part c [] (y ∷ ys) as_ bs l k e =
    let tails : as_ ≡ ys ++ c ∷ bs = cc in absurd (inside c ys bs (subst (Lacks c) tails l))
last_part c (x ∷ xs) [] as_ bs l k e =
    let tails : bs ≡ xs ++ c ∷ as_ = cc in absurd (inside c xs as_ (subst (Lacks c) tails k))
last_part c (x ∷ xs) (y ∷ ys) as_ bs l k e =
    let tails : xs ++ c ∷ as_ ≡ ys ++ c ∷ bs = cc in last_part c xs ys as_ bs l k tails

-- The text in front of the sequence number.
abbrev front_of : Bytes → Moment → Bytes
front_of basename now =
    basename ++ (b'-' ∷ (now.timestamp ++ (b'-' ∷ (pad now.micros ++ (b'-' ∷ to_string now.pid)))))

split_lem :
    (basename : Bytes) (now : Moment) (n : ℕ)
    → (create_filename basename now n).0
      ≡ front_of basename now ++ b'-' ∷ (to_string n ++ codes ".log")
unfolding create_filename
split_lem basename now n =
    let rest = b'-' ∷ (to_string n ++ codes ".log") in
    sym (
      append_assoc basename _ rest
      ∙ ap (λ x. basename ++ (b'-' ∷ x))
          (append_assoc now.timestamp _ rest
            ∙ ap (λ x. now.timestamp ++ (b'-' ∷ x)) (append_assoc (pad now.micros) _ rest)))

number-Lacks : (n : ℕ) → Lacks b'-' (to_string n ++ codes ".log")
number-Lacks n =
    All-append (λ x. x ≢ b'-') (to_string n) (codes ".log")
      (Digits-lack b'-' (to_string n) (inl (omega arith)) (to_string-IsDigit n))
      (omega arith, (omega arith, (omega arith, (omega arith, tt))))

to_string_injective : (m n : ℕ) → to_string m ≡ to_string n → m ≡ n
to_string_injective m n e =
    let bound = suc (m + n) in
    let same : from_chars bound (to_string m) ≡ from_chars bound (to_string n) =
      ap (from_chars bound) e in
    let both : some m ≡ some n =
      ap (λ x. x.0)
        (sym (from_chars-to_string bound m (omega arith))
          ∙ (same ∙ from_chars-to_string bound n (omega arith))) in
    cc

cut_suffix : (xs ys zs : Bytes) → xs ++ zs ≡ ys ++ zs → xs ≡ ys
cut_suffix [] [] zs e = refl
cut_suffix [] (y ∷ ys) zs e = absurd (omega (arith, ap length e, length-append ys zs))
cut_suffix (x ∷ xs) [] zs e = absurd (omega (arith, ap length e, length-append xs zs))
cut_suffix (x ∷ xs) (y ∷ ys) zs e =
    let tails : xs ++ zs ≡ ys ++ zs = cc in let rest = cut_suffix xs ys zs tails in cc

-- Under different sequence numbers the names differ.
create_filename-differ :
    (basename : Bytes) (now later : Moment) (m n : ℕ)
    → m ≢ n
    → (create_filename basename now m).0 ≢ (create_filename basename later n).0
create_filename-differ basename now later m n differ e = differ (
    to_string_injective m n (
      cut_suffix (to_string m) (to_string n) (codes ".log") (
        last_part b'-' (front_of basename now) (front_of basename later)
          (to_string m ++ codes ".log") (to_string n ++ codes ".log") (number-Lacks m)
          (number-Lacks n) (sym (split_lem basename now m) ∙ (e ∙ split_lem basename later n)))))

-- The names that one flusher gives to its files: each call reads the clock anew and goes on with
-- the sequence number that the last one left.
abbrev pub filenames : Bytes → List Moment → ℕ → List Bytes
filenames basename [] sequence = []
filenames basename (now ∷ moments) sequence =
    (create_filename basename now sequence).0
    ∷ filenames basename moments (create_filename basename now sequence).1

-- No name occurs twice.
abbrev pub AllDiffer : List Bytes → Type 0
AllDiffer [] = Unit
AllDiffer (name ∷ names) = All (λ other. name ≢ other) names × AllDiffer names

next_sequence :
    (basename : Bytes) (now : Moment) (sequence : ℕ)
    → IsU64 (sequence + 1)
    → (create_filename basename now sequence).1 ≡ sequence + 1
unfolding create_filename
next_sequence basename now sequence u = add64-eq-add sequence 1 u

-- A name with an earlier number is none of those that follow.
earlier_lem :
    (basename : Bytes) (now : Moment) (m : ℕ) (moments : List Moment) (sequence : ℕ)
    → m < sequence
    → IsU64 (sequence + length moments)
    → All
        (λ other. (create_filename basename now m).0 ≢ other)
        (filenames basename moments sequence)
earlier_lem basename now m [] sequence h u = tt
earlier_lem basename now m (later ∷ moments) sequence h u =
    let step = next_sequence basename later sequence (omega (arith, u)) in
    (
      create_filename-differ basename now later m sequence (λ e. omega (arith, e, h)),
      earlier_lem basename now m moments (create_filename basename later sequence).1
          (omega (arith, h, step)) (omega (arith, u, step)),
    )

-- All the files that one flusher makes have different names, whatever the clock says, as long as
-- its sequence number does not wrap at 64 bits.
pub filenames-AllDiffer :
    (basename : Bytes) (moments : List Moment) (sequence : ℕ)
    → IsU64 (sequence + length moments)
    → AllDiffer (filenames basename moments sequence)
filenames-AllDiffer basename [] sequence u = tt
filenames-AllDiffer basename (now ∷ moments) sequence u =
    let step = next_sequence basename now sequence (omega (arith, u)) in
    (
      earlier_lem basename now sequence moments (create_filename basename now sequence).1
          (omega (arith, step)) (omega (arith, u, step)),
      filenames-AllDiffer basename moments (create_filename basename now sequence).1
          (omega (arith, u, step)),
    )
