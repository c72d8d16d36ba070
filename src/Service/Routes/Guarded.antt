-- ===== src/Service/Routes/Guarded.antt =====
-- src/server/Service.cpp, HandleRequest: who may change what.
use asyn_log_system_cloud_st.Base.{
  ℕ, ◌≡◌, ◌⊎◌, inl, inr, true, some, [], Bytes, arith, Option-cases,
}
use asyn_log_system_cloud_st.Http.Url.{url_decode}
use asyn_log_system_cloud_st.Service.Platform.{Request, System, Settings}
use asyn_log_system_cloud_st.Service.Reply.{Headers, add_security_headers}
use asyn_log_system_cloud_st.Service.Access.{
  Server, AuthContext, authenticate, validate_csrf, login, logout, open_session,
}
use asyn_log_system_cloud_st.Service.Routes.{
  Events, is_post, route_changes, route_authenticated, route, handle_request,
}

module _ (sys : System) (settings : Settings) (ev : Events) (request : Request) where
  -- The request is a POST with a valid session and with that session's CSRF token in the header and
  -- in the cookie.
  abbrev pub IsAllowed : Server → Type 0
  IsAllowed s =
      (is_post request.method ≡ true)
      × ((context : AuthContext) × ((authenticate s request ev.auth_time).1 ≡ some context)
          × (validate_csrf sys request context ≡ true))

  authenticate_manager : (s : Server) (now : ℕ) → (authenticate s request now).0.manager ≡ s.manager
  unfolding authenticate
  authenticate_manager s now = ground arith

  logout_manager :
      (s : Server) (headers : Headers) (now : ℕ)
      → (logout settings s headers request now).0.manager ≡ s.manager
  unfolding logout
  logout_manager s headers now = ground (arith, authenticate_manager s now)

  login_manager :
      (s : Server) (headers : Headers)
      → (login sys settings ev.login_events s headers request).0.manager ≡ s.manager
  unfolding login open_session
  login_manager s headers = ground arith

  changes_lem :
      (headers : Headers) (s : Server) (context : AuthContext) (path : Bytes)
      → ((route_changes sys settings ev headers request s context path).0.manager ≡ s.manager)
        ⊎ ((is_post request.method ≡ true) × (validate_csrf sys request context ≡ true))
  unfolding route_changes
  changes_lem headers s context path = ground arith

  authenticated_lem :
      (headers : Headers) (s : Server) (context : AuthContext) (path : Bytes)
      → ((route_authenticated sys settings ev headers request s context path).0.manager.table
          ≡ s.manager.table)
        ⊎ ((is_post request.method ≡ true) × (validate_csrf sys request context ≡ true))
  unfolding route_authenticated
  authenticated_lem headers s context path = ground (arith, changes_lem headers s context path)

  route_lem :
      (headers : Headers) (s : Server) (path : Bytes)
      → ((route sys settings ev headers request s path).0.manager.table ≡ s.manager.table)
        ⊎ IsAllowed s
  unfolding route
  route_lem headers s path = elim (Option-cases (authenticate s request ev.auth_time).1) [
    | inl n ↦ inl (ground (arith, authenticate_manager s ev.auth_time, login_manager s headers))
    | inr (context, e) ↦
        elim (authenticated_lem headers (authenticate s request ev.auth_time).0 context path) [
          | inl same ↦
              inl
                (ground (arith, authenticate_manager s ev.auth_time, login_manager s headers, same))
          | inr (post, csrf) ↦ inr (post, (context, e, csrf))
        ]
  ]

  -- A request changes the table of the stored files only if it is a POST that carries the token of
  -- a session that is valid at that time, and that session's CSRF token both in its header and in
  -- its cookie. Any other request, whatever its path and method, leaves the table as it is.
  pub handle_request-IsAllowed :
      (s : Server)
      → ((handle_request sys settings ev s request).0.manager.table ≡ s.manager.table) ⊎ IsAllowed s
  unfolding handle_request
  handle_request-IsAllowed s = elim (Option-cases request.path) [
    | inl n ↦ inl (ground arith)
    | inr (raw_path, e) ↦ elim (route_lem (add_security_headers []) s (url_decode raw_path).1) [
      | inl same ↦ inl (ground (arith, same))
      | inr a ↦ inr a
    ]
  ]
