-- ===== src/Auth/Session.antt =====
-- src/server/Service.cpp, SessionStore. Time is the clock's count of nanoseconds, an argument for
-- each reading of the clock; what RAND_bytes returns is an argument as well.
pub mod Refines
pub mod Token
pub mod History
use asyn_log_system_cloud_st.Base.{
  ℕ, ◌+◌, ◌*◌, ◌/◌, ◌%◌, Bool, Option, none, some, List, [], ◌∷◌, Bytes, codes, get_or, ltb, leb,
  if◌then◌else◌, not,
}
use asyn_log_system_cloud_st.Base.Maps.{lookup, assign, erase, keep_if}

pub record SessionRecord : Type 0 where
  pub csrf_token : Bytes
  pub expires_at : ℕ

abbrev pub SessionStore : Type 0
SessionStore = List (Bytes × SessionRecord)

-- std::chrono::seconds(1).
abbrev pub second : ℕ
second = 1000000000

abbrev pub hex : Bytes
hex = codes "0123456789abcdef"

-- `hex[byte >> 4]` and `hex[byte & 0x0f]` for each byte.
unfoldable pub to_hex : Bytes → Bytes
to_hex [] = []
to_hex (byte ∷ bytes) = get_or hex (byte / 16) 0 ∷ get_or hex (byte % 16) 0 ∷ to_hex bytes

-- `none` for the random bytes is a failure of RAND_bytes.
unfoldable pub random_token : Option Bytes → Option Bytes
random_token none = none
random_token (some bytes) = some (to_hex bytes)

unfoldable pub remove_expired : ℕ → SessionStore → SessionStore
remove_expired now sessions = keep_if (λ r. not (leb r.expires_at now)) sessions

-- The result is the session token and the CSRF token. The clock is read once to remove what has
-- expired, and again for the new session.
unfoldable pub create :
    SessionStore → ℕ → Option Bytes → Option Bytes → ℕ → ℕ → SessionStore × Option (Bytes × Bytes)
unfolding remove_expired random_token
create sessions ttl_seconds first_bytes second_bytes now later = elim (random_token first_bytes) [
  | none ↦ (sessions, none)
  | some session ↦ elim (random_token second_bytes) [
    | none ↦ (sessions, none)
    | some csrf ↦
        let record_ : SessionRecord = record {
          csrf_token = csrf;
          expires_at = later + ttl_seconds * second;
        } in
        (assign session record_ (remove_expired now sessions), some (session, csrf))
  ]
]

unfoldable pub validate : SessionStore → Bytes → ℕ → SessionStore × Option SessionRecord
validate sessions token now = elim (lookup token sessions) [
  | none ↦ (sessions, none)
  | some found ↦
      if leb found.expires_at now then (erase token sessions, none) else (sessions, some found)
]

unfoldable pub remove : SessionStore → Bytes → SessionStore
remove sessions token = erase token sessions
