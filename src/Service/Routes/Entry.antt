-- ===== src/Service/Routes/Entry.antt =====
-- src/server/Service.cpp, HandleRequest: how a session comes into being.
use asyn_log_system_cloud_st.Base.{
  ℕ, ◌≡◌, ◌⊎◌, inl, inr, true, some, [], Bytes, bytes_eq, bytes_eq_iff, codes, arith, Option-cases,
  Bool-cases,
}
use asyn_log_system_cloud_st.Base.Maps.{lookup, lookup-erase}
use asyn_log_system_cloud_st.Http.Url.{url_decode}
use asyn_log_system_cloud_st.Auth.Session.{SessionRecord, SessionStore, validate, remove}
use asyn_log_system_cloud_st.Auth.Limiter.{allow}
use asyn_log_system_cloud_st.Auth.Cookie.{get_cookie}
use asyn_log_system_cloud_st.Service.Platform.{Request, System, Settings}
use asyn_log_system_cloud_st.Service.Reply.{Headers, add_security_headers}
use asyn_log_system_cloud_st.Service.Access.{
  Server, AuthContext, authenticate, login, logout, peer_address, read_request_body,
  password_matches,
}
use asyn_log_system_cloud_st.Service.Routes.{
  Events, is_post, route_changes, route_authenticated, route, handle_request,
}

-- Every session of the second store is one of the first.
abbrev pub Among : SessionStore → SessionStore → Type 0
Among before after =
    (token : Bytes) (r : SessionRecord) → lookup token after ≡ some r → lookup token before ≡ some r

validate-Among :
    (sessions : SessionStore) (token : Bytes) (now : ℕ)
    → Among sessions (validate sessions token now).0
unfolding validate
validate-Among sessions token now t r h = elim (Option-cases (lookup token sessions)) [
  | inl e ↦ ground arith
  | inr (found, e) ↦ ground (arith, lookup-erase token t sessions)
]

module _ (sys : System) (settings : Settings) (ev : Events) (request : Request) where
  authenticate-Among :
      (s : Server) (now : ℕ) → Among s.sessions (authenticate s request now).0.sessions
  unfolding authenticate
  authenticate-Among s now t r h =
      elim (Option-cases (get_cookie (request.find_header (codes "Cookie")) (codes "session"))) [
        | inl e ↦ ground arith
        | inr (token, e) ↦ ground (arith, validate-Among s.sessions token now t r)
      ]

  logout-Among :
      (s : Server) (headers : Headers) (now : ℕ)
      → Among s.sessions (logout settings s headers request now).0.sessions
  unfolding logout remove
  logout-Among s headers now t r h = elim (Option-cases (authenticate s request now).1) [
    | inl e ↦ ground (arith, authenticate-Among s now t r)
    | inr (c, e) ↦ ground (
      arith,
      authenticate-Among s now t r,
      lookup-erase c.session_token t (authenticate s request now).0.sessions,
    )
  ]

  -- The address is not blocked, and the body is a password that matches.
  abbrev pub IsEntitled : Server → Type 0
  IsEntitled s =
      ((allow s.attempts (peer_address request) ev.login_events.allow_time).1 ≡ true)
      × ((password : Bytes) × (read_request_body request 1024 ev.login_events.copied
            ≡ some password)
          × (password_matches sys settings password ≡ true))

  login_sessions :
      (s : Server) (headers : Headers)
      → ((login sys settings ev.login_events s headers request).0.sessions ≡ s.sessions)
        ⊎ IsEntitled s
  unfolding login
  login_sessions s headers =
      elim (Bool-cases (allow s.attempts (peer_address request) ev.login_events.allow_time).1) [
        | inr a ↦ inl (ground arith)
        | inl a ↦ elim (Option-cases (read_request_body request 1024 ev.login_events.copied)) [
          | inl b ↦ inl (ground arith)
          | inr (password, b) ↦ elim (Bool-cases (password_matches sys settings password)) [
            | inr c ↦ inl (ground arith)
            | inl c ↦ inr (a, (password, b, c))
          ]
        ]
      ]

  changes-Among :
      (headers : Headers) (s : Server) (context : AuthContext) (path : Bytes)
      → Among s.sessions (route_changes sys settings ev headers request s context path).0.sessions
  unfolding route_changes
  changes-Among headers s context path t r h =
      ground (arith, logout-Among s headers ev.logout_time t r)

  authenticated-Among :
      (headers : Headers) (s : Server) (context : AuthContext) (path : Bytes)
      → Among s.sessions
          (route_authenticated sys settings ev headers request s context path).0.sessions
  unfolding route_authenticated
  authenticated-Among headers s context path t r h =
      ground (arith, changes-Among headers s context path t r)

  route_sessions :
      (headers : Headers) (s : Server) (path : Bytes)
      → Among s.sessions (route sys settings ev headers request s path).0.sessions
        ⊎ ((path ≡ codes "/api/login") × (is_post request.method ≡ true) × IsEntitled s)
  unfolding route
  route_sessions headers s path = elim (Bool-cases (bytes_eq path (codes "/login"))) [
    | inl a ↦ inl (λ t r h. ground arith)
    | inr a ↦ elim (Bool-cases (bytes_eq path (codes "/api/login"))) [
      | inl b ↦ elim (Bool-cases (is_post request.method)) [
        | inr p ↦ inl (λ t r h. ground arith)
        | inl p ↦ elim (login_sessions s headers) [
          | inl same ↦ inl (λ t r h. ground (arith, same))
          | inr entitled ↦ inr ((bytes_eq_iff path (codes "/api/login")).0 b, p, entitled)
        ]
      ]
      | inr b ↦ elim (Option-cases (authenticate s request ev.auth_time).1) [
        | inl n ↦ inl (λ t r h. ground (arith, authenticate-Among s ev.auth_time t r))
        | inr (context, e) ↦ inl (λ t r h. ground (
          arith,
          authenticate-Among s ev.auth_time t r,
          authenticated-Among headers (authenticate s request ev.auth_time).0 context path t r,
        ))
      ]
    ]
  ]

  -- After any request every session is one that was there before, unless the request is a POST to
  -- /api/login from an address that is not blocked, whose body is a password that matches the
  -- configured hash.
  pub handle_request_sessions :
      (s : Server)
      → Among s.sessions (handle_request sys settings ev s request).0.sessions
        ⊎ ((raw_path : Bytes) × (request.path ≡ some raw_path)
            × (url_decode raw_path ≡ (true, codes "/api/login"))
            × (is_post request.method ≡ true)
            × IsEntitled s)
  unfolding handle_request
  handle_request_sessions s = elim (Option-cases request.path) [
    | inl n ↦ inl (λ t r h. ground arith)
    | inr (raw_path, e) ↦ elim (Bool-cases (url_decode raw_path).0) [
      | inr d ↦ inl (λ t r h. ground arith)
      | inl d ↦ elim (route_sessions (add_security_headers []) s (url_decode raw_path).1) [
        | inl kept ↦ inl (λ t r h. ground (arith, kept t r))
        | inr (path, post, entitled) ↦ inr (raw_path, e, both raw_path d path, post, entitled)
      ]
    ]
  ]
    where
      both :
          (raw : Bytes)
          → (url_decode raw).0 ≡ true
          → (url_decode raw).1 ≡ codes "/api/login"
          → url_decode raw ≡ (true, codes "/api/login")
      both raw d p = cc
