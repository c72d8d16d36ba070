-- ===== src/Auth/Limiter.antt =====
-- src/server/Service.cpp, LoginRateLimiter. Time is the clock's count of nanoseconds since its
-- epoch, an argument for each reading. A difference of two times is positive or 0 here; the source
-- only asks whether it exceeds one minute, which a negative one does not.
pub mod Blocks
use asyn_log_system_cloud_st.Base.{
  ℕ, ◌+◌, ◌-◌, ◌*◌, Bool, true, false, ◌||◌, Option, none, some, List, Bytes, ltb, leb, ◌==◌,
  if◌then◌else◌,
}
use asyn_log_system_cloud_st.Base.Maps.{lookup, assign, erase}
use asyn_log_system_cloud_st.Auth.Session.{second}

pub record Attempt : Type 0 where
  pub window_started : ℕ
  pub blocked_until : ℕ
  pub failures : ℕ

abbrev pub Attempts : Type 0
Attempts = List (Bytes × Attempt)

-- std::chrono::minutes(1).
abbrev pub minute : ℕ
minute = 60 * second

abbrev pub no_attempt : Attempt
no_attempt = record { window_started = 0; blocked_until = 0; failures = 0 }

unfoldable pub allow : Attempts → Bytes → ℕ → Attempts × Bool
allow attempts address now = elim (lookup address attempts) [
  | none ↦ (attempts, true)
  | some found ↦
      if ltb now found.blocked_until
      then (attempts, false)
      else if ltb minute (now - found.window_started)
      then (erase address attempts, true)
      else (attempts, true)
]

-- What a failure makes of the entry.
unfoldable pub count_failure : Attempt → ℕ → Attempt
count_failure attempt now =
    let restart = (attempt.window_started == 0) || ltb minute (now - attempt.window_started) in
    let started = if restart then now else attempt.window_started in
    let failures = (if restart then 0 else attempt.failures) + 1 in
    record {
      window_started = started;
      blocked_until = if leb 5 failures then now + minute else attempt.blocked_until;
      failures = failures;
    }

-- `attempts_[address]` makes a new entry where there is none.
unfoldable pub failure : Attempts → Bytes → ℕ → Attempts
unfolding count_failure
failure attempts address now =
    let before : Attempt = elim (lookup address attempts) [
      | none ↦ no_attempt
      | some found ↦ found
    ] in
    assign address (count_failure before now) attempts

unfoldable pub success : Attempts → Bytes → Attempts
success attempts address = erase address attempts
