-- ===== src/Examples/Auth.antt =====
-- The login state of src/server/Service.cpp at concrete inputs.
use asyn_log_system_cloud_st.Base.{
  ℕ, ◌+◌, ◌*◌, ◌≡◌, refl, none, some, false, List, [], ◌∷◌, Bytes, codes, bytes_eq, arith,
}
use asyn_log_system_cloud_st.Base.Maps.{lookup}
use asyn_log_system_cloud_st.Auth.Session.{second, random_token, to_hex, validate}
use asyn_log_system_cloud_st.Auth.Session.Refines.{live}
use asyn_log_system_cloud_st.Auth.Session.History.{
  Call, creates, validates, removes, run, table_run, validate-run,
}
use asyn_log_system_cloud_st.Auth.Limiter.{allow}
use asyn_log_system_cloud_st.Auth.Limiter.Blocks.{failures_at, allow-failures_at}
use asyn_log_system_cloud_st.Auth.Cookie.{get_cookie}
use asyn_log_system_cloud_st.Auth.Cookie.RoundTrip.{header_of, get_cookie-header_of}

-- A login at time 5, a validation, and a logout of another token.
abbrev history : List (ℕ × Call)
history =
    (5, creates 60 (some (18 ∷ [])) (some (52 ∷ [])) 6) ∷ (7, validates []) ∷ (8, removes []) ∷ []

validate-run_example :
    (validate (run [] history) (codes "12") 9).1
    ≡ live 9 (table_run (λ k. none) history (codes "12"))
validate-run_example = validate-run history 9 (codes "12") (omega arith)

logged_in :
    table_run (λ k. none) history (codes "12")
    ≡ some (record { csrf_token = codes "34"; expires_at = 6 + 60 * second })
unfolding random_token to_hex bytes_eq
logged_in = refl

allow-failures_at_example :
    (allow (failures_at [] (codes "a") (10 ∷ 11 ∷ 12 ∷ 13 ∷ 14 ∷ [])) (codes "a") 20).1 ≡ false
allow-failures_at_example =
    allow-failures_at [] (codes "a") 10 (11 ∷ 12 ∷ 13 ∷ 14 ∷ []) 20 (unfold lookup in refl)
      (omega arith) (omega arith)

abbrev two_cookies : List (Bytes × Bytes)
two_cookies = (codes "csrf", codes "77") ∷ (codes "session", codes "ab") ∷ []

get_cookie-header_of_example :
    get_cookie (some (header_of two_cookies)) (codes "session")
    ≡ lookup (codes "session") two_cookies
get_cookie-header_of_example =
    get_cookie-header_of two_cookies (codes "session") (λ e. cc) (omega arith)
