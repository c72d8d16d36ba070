-- ===== src/Service/Routes.antt =====
-- src/server/Service.cpp, HandleRequest: from the path and the method to the handlers.
pub mod Guarded
pub mod Entry
use asyn_log_system_cloud_st.Base.{
  ℕ, Bool, true, false, not, ◌||◌, ◌&&◌, Option, none, some, [], ◌∷◌, Bytes, bytes_eq, codes,
  if◌then◌else◌,
}
use asyn_log_system_cloud_st.Http.Url.{url_decode}
use asyn_log_system_cloud_st.Store.Manager.{DataManager}
use asyn_log_system_cloud_st.Service.Platform.{
  Request, System, Settings, Method, method_get, method_post, method_head, method_other,
}
use asyn_log_system_cloud_st.Service.Reply.{
  Headers, Reply, Answer, add_header, add_security_headers, send_text, send_method_not_allowed,
  bad_request,
}
use asyn_log_system_cloud_st.Service.Reply
use asyn_log_system_cloud_st.Service.Text.{is_download_path}
use asyn_log_system_cloud_st.Service.Access.{
  Server, AuthContext, authenticate, validate_csrf, LoginEvents, login, logout, unauthorized,
}
use asyn_log_system_cloud_st.Service.Upload.{UploadEvents, upload}
use asyn_log_system_cloud_st.Service.Remove.{RemoveEvents, remove_file}
use asyn_log_system_cloud_st.Service.Download.{DownloadEvents, download}
use asyn_log_system_cloud_st.Service.Pages.{show_login, list_files}

-- What one request may meet: the readings of the clock at its two authentications, the templates,
-- and the reports for each handler.
pub record Events : Type 0 where
  pub auth_time : ℕ
  pub logout_time : ℕ
  pub login_template : Option Bytes
  pub index_template : Option Bytes
  pub login_events : LoginEvents
  pub upload_events : UploadEvents
  pub remove_events : RemoveEvents
  pub download_events : DownloadEvents

abbrev pub is_get : Method → Bool
is_get method_get = true
is_get method_post = false
is_get method_head = false
is_get method_other = false

abbrev pub is_post : Method → Bool
is_post method_get = false
is_post method_post = true
is_post method_head = false
is_post method_other = false

abbrev pub is_get_or_head : Method → Bool
is_get_or_head method_get = true
is_get_or_head method_post = false
is_get_or_head method_head = true
is_get_or_head method_other = false

abbrev pub forbidden : Answer
forbidden = record { status = 403; reason = codes "Forbidden"; text = codes "invalid CSRF token" }

module _ (sys : System) (settings : Settings) (ev : Events) (headers : Headers)
    (request : Request) where
  -- The routes that change something: POST with the CSRF token, or nothing is done.
  unfoldable pub route_changes : Server → AuthContext → Bytes → Server × Reply
  unfolding send_method_not_allowed send_text upload remove_file logout validate_csrf
  route_changes s auth path =
      if not (is_post request.method)
      then (s, send_method_not_allowed headers (codes "POST"))
      else if not (validate_csrf sys request auth)
      then (s, send_text headers forbidden)
      else if bytes_eq path (codes "/upload")
      then (let (m, reply) = upload sys settings ev.upload_events s.manager headers request in
          (record s { manager = m }, reply))
      else if bytes_eq path (codes "/delete")
      then (let (m, reply) = remove_file sys settings ev.remove_events s.manager headers request in
          (record s { manager = m }, reply))
      else logout settings s headers request ev.logout_time

  -- The routes after authentication.
  unfoldable pub route_authenticated : Server → AuthContext → Bytes → Server × Reply
  unfolding route_changes send_method_not_allowed send_text list_files download is_download_path
  route_authenticated s auth path =
      if bytes_eq path (codes "/")
      then (
        s,
        if is_get request.method
            then list_files sys ev.index_template s.manager.table headers
            else send_method_not_allowed headers (codes "GET"),
      )
      else if bytes_eq path (codes "/upload")
          || (bytes_eq path (codes "/delete") || bytes_eq path (codes "/logout"))
      then route_changes s auth path
      else if is_download_path settings.storage.download_prefix path
      then if not (is_get_or_head request.method)
        then (s, send_method_not_allowed headers (codes "GET, HEAD"))
        else (let (files, reply) =
              download sys ev.download_events s.manager.table s.manager.files headers request
                path in
            (record s { manager = record s.manager { files = files } }, reply))
      else (s, send_text headers (Reply.not_found (codes "not found")))

  -- Without a session: to the login page, or an error.
  unfoldable pub unauthenticated : Bytes → Reply
  unfolding add_header send_text is_download_path
  unauthenticated path =
      if bytes_eq path (codes "/") || is_download_path settings.storage.download_prefix path
      then record {
        headers = add_header headers (codes "Location") (codes "/login");
        status = 302;
        reason = codes "Redirect";
        content = [];
      }
      else send_text headers (unauthorized (codes "authentication required"))

  unfoldable pub route : Server → Bytes → Server × Reply
  unfolding route_authenticated unauthenticated authenticate login show_login
      send_method_not_allowed
  route s path =
      if bytes_eq path (codes "/login")
      then (
        s,
        if is_get request.method
            then show_login ev.login_template headers
            else send_method_not_allowed headers (codes "GET"),
      )
      else if bytes_eq path (codes "/api/login")
      then if is_post request.method
        then login sys settings ev.login_events s headers request
        else (s, send_method_not_allowed headers (codes "POST"))
      else (let (s1, auth) = authenticate s request ev.auth_time in
          elim auth [
            | none ↦ (s1, unauthenticated path)
            | some context ↦ route_authenticated s1 context path
          ])

unfoldable pub handle_request : System → Settings → Events → Server → Request → Server × Reply
unfolding add_security_headers send_text route
handle_request sys settings ev s request =
    let headers = add_security_headers [] in
    elim request.path [
      | none ↦ (s, send_text headers (bad_request (codes "invalid path")))
      | some raw_path ↦
          let (decoded, path) = url_decode raw_path in
          if not decoded
          then (s, send_text headers (bad_request (codes "invalid URL encoding")))
          else route sys settings ev headers request s path
    ]
