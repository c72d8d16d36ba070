-- ===== src/Service/Access.antt =====
-- src/server/Service.cpp: SecureEqual, Authenticate, ValidateCsrf, the cookies of a session, Login
-- and Logout.
use asyn_log_system_cloud_st.Base.{
  ℕ, Bool, true, false, not, ◌&&◌, Option, none, some, [], ◌++◌, Bytes, codes, length, is_empty,
  ltb, ◌==◌, if◌then◌else◌,
}
use asyn_log_system_cloud_st.Base.Decimal.{to_string}
use asyn_log_system_cloud_st.Auth.Session.{
  SessionRecord, SessionStore, create, validate, remove, to_hex,
}
use asyn_log_system_cloud_st.Auth.Limiter.{Attempts, allow, failure, success}
use asyn_log_system_cloud_st.Auth.Cookie.{get_cookie}
use asyn_log_system_cloud_st.Store.Manager.{DataManager}
use asyn_log_system_cloud_st.Service.Platform.{Request, System, Settings}
use asyn_log_system_cloud_st.Service.Reply.{
  Headers, Reply, Answer, add_header, send_text, set_no_cache, bad_request, internal_error,
}

-- Sessions(), LoginLimiter() and the data manager.
pub record Server : Type 0 where
  pub sessions : SessionStore
  pub attempts : Attempts
  pub manager : DataManager

pub record AuthContext : Type 0 where
  pub session_token : Bytes
  pub session : SessionRecord

unfoldable pub secure_equal : System → Bytes → Bytes → Bool
secure_equal sys left right = (length left == length right) && sys.same_bytes left right

unfoldable pub authenticate : Server → Request → ℕ → Server × Option AuthContext
authenticate s request now =
    elim (get_cookie (request.find_header (codes "Cookie")) (codes "session")) [
      | none ↦ (s, none)
      | some token ↦
          let (sessions, found) = validate s.sessions token now in
          (
            record s { sessions = sessions },
            elim found [
              | none ↦ none
              | some session ↦ some (record { session_token = token; session = session })
            ],
          )
    ]

unfoldable pub validate_csrf : System → Request → AuthContext → Bool
unfolding secure_equal
validate_csrf sys request context = elim (request.find_header (codes "X-CSRF-Token")) [
  | none ↦ false
  | some header ↦ elim (get_cookie (request.find_header (codes "Cookie")) (codes "csrf")) [
    | none ↦ false
    | some cookie ↦
        secure_equal sys header context.session.csrf_token
        && secure_equal sys cookie context.session.csrf_token
  ]
]

-- A password longer than INT_MAX is refused before it is hashed.
unfoldable pub derive_password_hash : System → Bytes → Option Bytes
derive_password_hash sys password =
    if ltb 2147483647 (length password)
    then none
    else elim (sys.derive password) [ none ↦ none | some digest ↦ some (to_hex digest) ]

unfoldable pub peer_address : Request → Bytes
peer_address request = elim request.peer [ none ↦ codes "unknown" | some address ↦ address ]

unfoldable pub cookie_suffix : Settings → Bool → Bytes
cookie_suffix settings http_only =
    codes "; Path=/; SameSite=Strict; Max-Age="
    ++ (to_string settings.session_ttl_seconds
        ++ ((if http_only then codes "; HttpOnly" else [])
            ++ (if settings.cookie_secure then codes "; Secure" else [])))

unfoldable pub clear_auth_cookies : Settings → Headers → Headers
unfolding add_header
clear_auth_cookies settings headers =
    let suffix =
      codes "; Path=/; SameSite=Strict; Max-Age=0"
      ++ (if settings.cookie_secure then codes "; Secure" else []) in
    add_header
      (add_header headers (codes "Set-Cookie") (codes "session=" ++ (suffix ++ codes "; HttpOnly")))
      (codes "Set-Cookie") (codes "csrf=" ++ suffix)

-- `copied` is whether evbuffer_copyout copied every byte.
unfoldable pub read_request_body : Request → ℕ → Bool → Option Bytes
read_request_body request maximum copied = elim request.body [
  | none ↦ none
  | some input ↦
      if is_empty input
      then none
      else if ltb maximum (length input)
      then none
      else if copied
      then some input
      else none
]

-- The readings of the clock and the random bytes of one login, and whether the body was copied.
pub record LoginEvents : Type 0 where
  pub allow_time : ℕ
  pub failure_time : ℕ
  pub expiry_time : ℕ
  pub create_time : ℕ
  pub session_bytes : Option Bytes
  pub csrf_bytes : Option Bytes
  pub copied : Bool

abbrev pub unauthorized : Bytes → Answer
unauthorized text = record { status = 401; reason = codes "Unauthorized"; text = text }

-- `DerivePasswordHash(...) && SecureEqual(...)`.
unfoldable pub password_matches : System → Settings → Bytes → Bool
unfolding derive_password_hash secure_equal
password_matches sys settings password = elim (derive_password_hash sys password) [
  | none ↦ false
  | some derived_hash ↦ secure_equal sys derived_hash settings.auth_hash
]

-- From the creation of the session on.
unfoldable pub open_session : Settings → LoginEvents → Server → Headers → Bytes → Server × Reply
unfolding add_header send_text cookie_suffix
open_session settings ev s headers peer =
    let (sessions, tokens) =
      create s.sessions settings.session_ttl_seconds ev.session_bytes ev.csrf_bytes ev.expiry_time
        ev.create_time in
    elim tokens [
      | none ↦ (
        record s { sessions = sessions },
        send_text headers (internal_error (codes "cannot create session")),
      )
      | some (session_token, csrf_token) ↦
          let with_session =
            add_header headers (codes "Set-Cookie")
              (codes "session=" ++ (session_token ++ cookie_suffix settings true)) in
          let with_csrf =
            add_header with_session (codes "Set-Cookie")
              (codes "csrf=" ++ (csrf_token ++ cookie_suffix settings false)) in
          (
            record s { sessions = sessions; attempts = success s.attempts peer },
            send_text with_csrf
                (record { status = 200; reason = codes "OK"; text = codes "login successful" }),
          )
    ]

unfoldable pub login : System → Settings → LoginEvents → Server → Headers → Request → Server × Reply
unfolding send_text set_no_cache peer_address read_request_body password_matches open_session
    add_header
login sys settings ev s headers0 request =
    let headers = set_no_cache headers0 in
    let peer = peer_address request in
    let (attempts, allowed) = allow s.attempts peer ev.allow_time in
    let s1 = record s { attempts = attempts } in
    if not allowed
    then (
      s1,
      send_text (add_header headers (codes "Retry-After") (codes "60")) (record {
        status = 429;
        reason = codes "Too Many Requests";
        text = codes "try again later";
      }),
    )
    else elim (read_request_body request 1024 ev.copied) [
      | none ↦ (s1, send_text headers (bad_request (codes "invalid password body")))
      | some password ↦
          if not (password_matches sys settings password)
          then (
            record s1 { attempts = failure attempts peer ev.failure_time },
            send_text headers (unauthorized (codes "authentication failed")),
          )
          else open_session settings ev s1 headers peer
    ]

unfoldable pub logout : Settings → Server → Headers → Request → ℕ → Server × Reply
unfolding authenticate clear_auth_cookies set_no_cache send_text
logout settings s headers request now =
    let (s1, auth) = authenticate s request now in
    let s2 : Server = elim auth [
      | none ↦ s1
      | some context ↦ record s1 { sessions = remove s1.sessions context.session_token }
    ] in
    (
      s2,
      send_text (set_no_cache (clear_auth_cookies settings headers))
          (record { status = 200; reason = codes "OK"; text = codes "logged out" }),
    )
