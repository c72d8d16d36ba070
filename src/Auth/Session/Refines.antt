-- ===== src/Auth/Session/Refines.antt =====
-- src/server/Service.cpp: the session store against a table that never forgets to expire a session.
use asyn_log_system_cloud_st.Base.{
  ℕ, ◌+◌, ◌*◌, ◌≤◌, ◌≡◌, subst, Bool-cases, Option, Option-cases, none, some, inl, inr, Bytes,
  bytes_eq, bytes_eq_iff, ltb, leb, if◌then◌else◌, arith,
}
use asyn_log_system_cloud_st.Base.Maps.{
  lookup, IsMap, lookup-assign, lookup-erase, lookup-keep_if, lookup-keep_if-none,
}
use asyn_log_system_cloud_st.Auth.Session.{
  SessionRecord, SessionStore, second, random_token, remove_expired, create, validate,
}

-- A record that has not expired at `now`.
abbrev pub live : ℕ → Option SessionRecord → Option SessionRecord
live now none = none
live now (some r) = if ltb now r.expires_at then some r else none

-- The abstract store: which session a token opens at a time.
abbrev pub active : SessionStore → ℕ → Bytes → Option SessionRecord
active sessions now token = live now (lookup token sessions)

-- A table that is only ever written by a login and by a logout.
abbrev pub Table : Type 0
Table = Bytes → Option SessionRecord

-- What a login that returned `result` adds to the table.
abbrev pub created : ℕ → ℕ → Option (Bytes × Bytes) → Table → Table
created ttl later none table k = table k
created ttl later (some (session, csrf)) table k =
    if bytes_eq session k
    then some (record { csrf_token = csrf; expires_at = later + ttl * second })
    else table k

remove_expired-active :
    (now t : ℕ) (sessions : SessionStore) (k : Bytes)
    → IsMap sessions
    → now ≤ t
    → active (remove_expired now sessions) t k ≡ active sessions t k
unfolding remove_expired
remove_expired-active now t sessions k m h = elim (Option-cases (lookup k sessions)) [
  | inl e ↦ rw (e, lookup-keep_if-none _ k sessions e)
  | inr (r, e) ↦ rw (e, lookup-keep_if _ k sessions r m e) (ground arith)
]

pub create-active :
    (sessions : SessionStore) (ttl : ℕ) (b c : Option Bytes) (now later t : ℕ) (k : Bytes)
    → IsMap sessions
    → now ≤ t
    → active (create sessions ttl b c now later).0 t k
      ≡ live t (created ttl later (create sessions ttl b c now later).1 (λ j. lookup j sessions) k)
unfolding create
create-active sessions ttl b c now later t k m h = elim (Option-cases (random_token b)) [
  | inl e ↦ rw (e, create)
  | inr (x, e) ↦ elim (Option-cases (random_token c)) [
    | inl f ↦ rw (e, f, create)
    | inr (y, f) ↦
        rw (e, f, create, lookup-assign)
          (elim (Bool-cases (bytes_eq x k)) [
            | inl same ↦ rw same
            | inr other ↦ rw other (remove_expired-active now t sessions k m h)
          ])
  ]
]

pub validate-active :
    (sessions : SessionStore) (token : Bytes) (now t : ℕ) (k : Bytes)
    → now ≤ t
    → active (validate sessions token now).0 t k ≡ active sessions t k
unfolding validate
validate-active sessions token now t k h = elim (Option-cases (lookup token sessions)) [
  | inl e ↦ rw (e, validate)
  | inr (r, e) ↦
      rw (e, validate)
        (elim (Bool-cases (leb r.expires_at now)) [
          | inr fresh ↦ rw fresh
          | inl stale ↦
              rw (stale, lookup-erase)
                (elim (Bool-cases (bytes_eq token k)) [
                  | inr other ↦ rw other
                  | inl same ↦
                      let e' =
                        subst (λ x. lookup x sessions ≡ some r) ((bytes_eq_iff token k).0 same) e in
                      rw (same, e') (ground arith)
                ])
        ])
]

-- What a validation answers is what is active.
pub validate-answer :
    (sessions : SessionStore) (token : Bytes) (now : ℕ)
    → (validate sessions token now).1 ≡ active sessions now token
unfolding validate
validate-answer sessions token now = elim (Option-cases (lookup token sessions)) [
  | inl e ↦ rw (e, validate)
  | inr (r, e) ↦ rw (e, validate) (ground arith)
]
