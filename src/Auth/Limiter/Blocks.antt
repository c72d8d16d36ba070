-- ===== src/Auth/Limiter/Blocks.antt =====
-- src/server/Service.cpp: when the rate limiter turns an address away.
use asyn_log_system_cloud_st.Base.{
  ℕ, ◌+◌, ◌<◌, ◌≤◌, ◌≡◌, ◌≢◌, sym, ap, ◌∙◌, Bool, true, false, ◌&&◌, Option, none, some, List, [],
  ◌∷◌, Bytes, bytes_eq, bytes_eq_refl, bytes_eq_iff, length, ltb, leb, if◌then◌else◌, not, arith,
  Option-cases, inl, inr,
}
use asyn_log_system_cloud_st.Base.Maps.{lookup, erase, lookup-assign, lookup-erase}
use asyn_log_system_cloud_st.Auth.Limiter.{
  Attempt, Attempts, minute, allow, count_failure, failure, success,
}

-- Failures of one address at the listed times.
abbrev pub failures_at : Attempts → Bytes → List ℕ → Attempts
failures_at attempts address [] = attempts
failures_at attempts address (t ∷ ts) = failures_at (failure attempts address t) address ts

-- The times are in order from `first` on, and lie in the minute that starts there.
abbrev pub InWindow : ℕ → ℕ → List ℕ → Type 0
InWindow first from [] = Unit {0}
InWindow first from (t ∷ ts) = (from ≤ t) × (t ≤ first + minute) × InWindow first t ts

abbrev pub last_of : ℕ → List ℕ → ℕ
last_of t [] = t
last_of t (u ∷ us) = last_of u us

-- The entry after `n` failures in a window that began at `first`, the last of them at `t`.
abbrev entry : ℕ → ℕ → ℕ → Attempt
entry first t n = record {
  window_started = first;
  blocked_until = if leb 5 n then t + minute else 0;
  failures = n;
}

count_failure-entry :
    (first t u n : ℕ)
    → 0 < first
    → u ≤ first + minute
    → count_failure (entry first t n) u ≡ entry first u (n + 1)
unfolding count_failure
count_failure-entry first t u n h k = ground arith

failure-entry :
    (attempts : Attempts) (address : Bytes) (first t u n : ℕ)
    → 0 < first
    → u ≤ first + minute
    → lookup address attempts ≡ some (entry first t n)
    → lookup address (failure attempts address u) ≡ some (entry first u (n + 1))
unfolding failure
failure-entry attempts address first t u n h k e =
    rw (e, lookup-assign, bytes_eq_refl address) (ap some (count_failure-entry first t u n h k))

failures_at-entry :
    (attempts : Attempts) (address : Bytes) (first t n : ℕ) (ts : List ℕ)
    → 0 < first
    → InWindow first t ts
    → lookup address attempts ≡ some (entry first t n)
    → lookup address (failures_at attempts address ts)
      ≡ some (entry first (last_of t ts) (n + length ts))
failures_at-entry attempts address first t n [] h w e = rw e (ground arith)
failures_at-entry attempts address first t n (u ∷ us) h (p, q, w) e =
    failures_at-entry (failure attempts address u) address first u (n + 1) us h w
      (failure-entry attempts address first t u n h q e)
    ∙ ground arith

first_failure :
    (attempts : Attempts) (address : Bytes) (t : ℕ)
    → lookup address attempts ≡ none
    → lookup address (failure attempts address t) ≡ some (entry t t 1)
unfolding failure count_failure
first_failure attempts address t e = rw (e, lookup-assign, bytes_eq_refl address) (ground arith)

-- An address with no entry that then fails at `first`, after the epoch of the clock, and at `ts`,
-- all within one minute, is turned away exactly if these are at least five failures and less than a
-- minute has passed since the last.
pub allow-failures_at :
    (attempts : Attempts) (address : Bytes) (first : ℕ) (ts : List ℕ) (now : ℕ)
    → lookup address attempts ≡ none
    → 0 < first
    → InWindow first first ts
    → (allow (failures_at attempts address (first ∷ ts)) address now).1
      ≡ not (leb 5 (1 + length ts) && ltb now (last_of first ts + minute))
unfolding allow
allow-failures_at attempts address first ts now e h w =
    let found =
      failures_at-entry (failure attempts address first) address first first 1 ts h w
        (first_failure attempts address first e) in
    rw (found, allow) (ground arith)

-- The answer depends on the entry of the address alone.
abbrev answer : Option Attempt → ℕ → Bool
answer none now = true
answer (some found) now = not (ltb now found.blocked_until)

allow-answer :
    (attempts : Attempts) (k : Bytes) (now : ℕ)
    → (allow attempts k now).1 ≡ answer (lookup k attempts) now
unfolding allow
allow-answer attempts k now = elim (Option-cases (lookup k attempts)) [
  | inl e ↦ rw (e, allow)
  | inr (found, e) ↦ rw (e, allow) (ground arith)
]

same-answer :
    (a b : Attempts) (k : Bytes) (now : ℕ)
    → lookup k a ≡ lookup k b
    → (allow a k now).1 ≡ (allow b k now).1
same-answer a b k now e =
    allow-answer a k now ∙ ap (λ o. answer o now) e ∙ sym (allow-answer b k now)

module _ (attempts : Attempts) (address other : Bytes) (n : address ≢ other) where
  differ : bytes_eq address other ≡ false
  differ = ground (arith, bytes_eq_iff address other)

  lookup-erase_other : lookup other (erase address attempts) ≡ lookup other attempts
  lookup-erase_other = rw (lookup-erase, differ)

  lookup-allow_other : (t : ℕ) → lookup other (allow attempts address t).0 ≡ lookup other attempts
  unfolding allow
  lookup-allow_other t = elim (Option-cases (lookup address attempts)) [
    | inl e ↦ rw (e, allow)
    | inr (found, e) ↦ rw (e, allow) (ground (arith, lookup-erase_other))
  ]

-- What happens to one address, a failure, a success or a question, changes no answer for another,
-- and a success lets its own address in at once.
pub allow_other :
    (attempts : Attempts) (address other : Bytes) (t now : ℕ)
    → address ≢ other
    → ((allow (failure attempts address t) other now).1 ≡ (allow attempts other now).1)
      × ((allow (success attempts address) other now).1 ≡ (allow attempts other now).1)
      × ((allow (allow attempts address t).0 other now).1 ≡ (allow attempts other now).1)
      × ((allow (success attempts address) address now).1 ≡ true)
unfolding failure success
allow_other attempts address other t now n = (
  same-answer _ attempts other now (rw (lookup-assign, differ attempts address other n)),
  same-answer _ attempts other now (lookup-erase_other attempts address other n),
  same-answer _ attempts other now (lookup-allow_other attempts address other n t),
  allow-answer _ address now ∙ rw (lookup-erase, bytes_eq_refl address),
)
