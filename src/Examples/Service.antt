-- ===== src/Examples/Service.antt =====
-- src/server/Service.cpp: the theorems at concrete requests.
use asyn_log_system_cloud_st.Base.{
  ◌≡◌, ◌≢◌, refl, sym, ap, ◌∙◌, ◌⊎◌, true, false, none, some, [], ◌∷◌, Bytes, codes, bytes_eq,
  if◌then◌else◌, All, arith,
}
use asyn_log_system_cloud_st.Base.Maps.{lookup}
use asyn_log_system_cloud_st.Base.Integers.{pos}
use asyn_log_system_cloud_st.Http.Url.{url_decode, decode_loop, decode_pair, from_hex}
use asyn_log_system_cloud_st.Store.Info.{StorageInfo}
use asyn_log_system_cloud_st.Store.Manager.{DataManager, get_one_by_url}
use asyn_log_system_cloud_st.Service.Platform.{Request, System, Settings, method_post}
use asyn_log_system_cloud_st.Service.Reply.{Answer, pass, refuse, and_then}
use asyn_log_system_cloud_st.Service.Text.{
  html_escape, is_safe_file_name, all_safe, is_unsafe, is_download_path,
}
use asyn_log_system_cloud_st.Service.Text.Escape.{IsInert, html_escape-IsInert}
use asyn_log_system_cloud_st.Service.Access.{Server}
use asyn_log_system_cloud_st.Service.Upload.{
  Upload, UploadEvents, check_upload, check_body, check_name, check_type, upload,
}
use asyn_log_system_cloud_st.Service.Upload.Atomic.{IsNew}
use asyn_log_system_cloud_st.Service.Upload.Whole.{Handled, upload_lem}
use asyn_log_system_cloud_st.Service.Remove.{RemoveEvents, check_remove, remove_file}
use asyn_log_system_cloud_st.Service.Remove.Atomic.{AreApart, IsRemoved, IsKept}
use asyn_log_system_cloud_st.Service.Remove.Whole.{remove_file_lem}
use asyn_log_system_cloud_st.Service.Download.{
  DownloadEvents, requested_range, entity_tag, serve, download,
}
use asyn_log_system_cloud_st.Service.Download.Slices.{Sends, serve-Sends, download_files}
use asyn_log_system_cloud_st.Service.Routes.{Events, is_post, handle_request}
use asyn_log_system_cloud_st.Service.Routes.Guarded.{IsAllowed, handle_request-IsAllowed}
use asyn_log_system_cloud_st.Service.Routes.Entry.{Among, IsEntitled, handle_request_sessions}
use asyn_log_system_cloud_st.Examples.Store.{texts, flat, settings, info_a, all_well, empty}

html_escape-IsInert_example : All IsInert (html_escape (codes "<b>"))
html_escape-IsInert_example = html_escape-IsInert (codes "<b>")

safe_a : is_safe_file_name (codes "a") ≡ true
unfolding is_safe_file_name all_safe is_unsafe bytes_eq
safe_a = refl

abbrev pub sys : System
sys = record {
  json = texts;
  paths = flat;
  join_path = λ d f. f;
  base64_decode = λ b. some b;
  derive = λ p. some p;
  same_bytes = bytes_eq;
  pack = λ b. some b;
  unpack = λ b. some b;
  sha256 = λ b. some b;
  format_size = λ n. [];
  format_time = λ t. [];
}

abbrev site : Settings
site = record {
  storage = settings;
  max_upload_size = 10;
  session_ttl_seconds = 60;
  cookie_secure = true;
  auth_hash = codes "6869";
}

-- A request to store, load or delete the file a.
abbrev request_a : Request
request_a = record {
  path = some (codes "/upload");
  method = method_post;
  find_header = λ h.
      if bytes_eq h (codes "FileName")
      then some (codes "a")
      else if bytes_eq h (codes "StorageType")
      then some (codes "low")
      else if bytes_eq h (codes "DeleteUrl")
      then some (codes "/download/a")
      else none;
  body = some (codes "hi");
  peer = none;
}

abbrev upload_events : UploadEvents
upload_events = record {
  directory_created = true;
  copied = true;
  temporary_path = some (codes "up");
  written = true;
  linked = true;
  unlinked = true;
  size = pos 2;
  modified = pos 0;
  accessed = pos 0;
  persist_report = all_well;
}

abbrev upload_a : Upload
upload_a = record {
  filename = codes "a";
  storage_type = codes "low";
  directory = codes "low";
  content = codes "hi";
}

check_upload_runs : check_upload sys site [] request_a ≡ pass upload_a
unfolding check_upload and_then check_body check_name check_type get_one_by_url lookup bytes_eq
    is_safe_file_name all_safe is_unsafe
check_upload_runs = refl

upload_fresh : (t : Bytes) → upload_events.temporary_path ≡ some t → lookup t empty.files ≡ none
unfolding lookup
upload_fresh t e = refl

upload_places :
    (u : Upload)
    → check_upload sys site empty.table request_a ≡ pass u
    → IsNew site upload_events empty.files (sys.join_path u.directory u.filename)
      × (sys.join_path u.directory u.filename ≢ settings.storage_info_file)
unfolding lookup
upload_places u e =
    let found = sym check_upload_runs ∙ e in
    let same : upload_a ≡ u = cc in
    let named : codes "a" ≡ u.filename = ap (λ x. x.filename) same in
    ((λ t h. (refl, (λ k. cc), λ k. cc)), λ k. cc)

upload_lem_example :
    Handled sys site upload_events empty [] request_a
      (upload sys site upload_events empty [] request_a).0
      (upload sys site upload_events empty [] request_a).1
upload_lem_example = upload_lem sys site upload_events empty [] request_a upload_fresh upload_places

abbrev stored_a : DataManager
stored_a = record {
  table = (codes "/download/a", info_a) ∷ [];
  files = (codes "a", codes "hi") ∷ [];
}

abbrev remove_events : RemoveEvents
remove_events = record {
  existence_error = false;
  trash_path = some (codes "trash");
  moved = true;
  restored = true;
  persist_report = all_well;
}

check_remove_runs : check_remove site stored_a.table request_a ≡ pass (codes "/download/a", info_a)
unfolding check_remove url_decode decode_loop decode_pair from_hex is_download_path get_one_by_url
    lookup bytes_eq
check_remove_runs = refl

new_trash :
    (t : Bytes)
    → remove_events.trash_path ≡ some t
    → (lookup t stored_a.files ≡ none) × (t ≢ settings.storage_info_file)
unfolding lookup bytes_eq
new_trash t e = let same : codes "trash" ≡ t = cc in rw (sym same) (refl, λ k. cc)

new_persist :
    (t : Bytes)
    → all_well.temporary_path ≡ some t
    → (lookup t stored_a.files ≡ none)
      × (t ≢ settings.storage_info_file)
      × (remove_events.trash_path ≢ some t)
unfolding lookup bytes_eq
new_persist t e = let same : codes "tmp" ≡ t = cc in rw (sym same) (refl, (λ k. cc), λ k. cc)

remove_places :
    (url : Bytes) (info : StorageInfo)
    → check_remove site stored_a.table request_a ≡ pass (url, info)
    → AreApart site remove_events stored_a info.storage_path
remove_places url info e =
    let found = sym check_remove_runs ∙ e in
    let same : info_a ≡ info = cc in
    let path : codes "a" ≡ info.storage_path = ap (λ x. x.storage_path) same in
    record { trash_new = new_trash; persist_new = new_persist; path_apart = λ k. cc }

remove_file_lem_example :
    (((remove_file sys site remove_events stored_a [] request_a).1.status ≡ 200)
      × ((url : Bytes) × (info : StorageInfo) × (check_remove site stored_a.table request_a
            ≡ pass (url, info))
          × IsRemoved sys site stored_a url info.storage_path
              (remove_file sys site remove_events stored_a [] request_a).0))
    ⊎ (((remove_file sys site remove_events stored_a [] request_a).1.status ≢ 200)
        × ((url : Bytes) (info : StorageInfo)
            → check_remove site stored_a.table request_a ≡ pass (url, info)
            → IsKept remove_events stored_a info.storage_path
                (remove_file sys site remove_events stored_a [] request_a).0)
        × ((a : Answer)
            → check_remove site stored_a.table request_a ≡ refuse a
            → (remove_file sys site remove_events stored_a [] request_a).0 ≡ stored_a))
remove_file_lem_example = remove_file_lem sys site remove_events stored_a [] request_a remove_places

abbrev pub download_events : DownloadEvents
download_events = record {
  temporary_path = some (codes "down");
  packed_read = true;
  unpacked_written = true;
  opened = true;
  added = true;
}

serve-Sends_example :
    Sends
      (codes "hi")
      (requested_range sys request_a (entity_tag sys info_a) 2)
      method_post
      (serve sys download_events (some (codes "hi")) [] info_a request_a)
serve-Sends_example = serve-Sends sys download_events request_a (codes "hi") [] info_a (omega arith)

new_down : (t : Bytes) → download_events.temporary_path ≡ some t → lookup t stored_a.files ≡ none
unfolding lookup bytes_eq
new_down t e = let same : codes "down" ≡ t = cc in rw (sym same) refl

download_files_example :
    lookup
      (codes "a")
      (download sys download_events stored_a.table stored_a.files [] request_a
        (codes "/download/a")).0
    ≡ lookup (codes "a") stored_a.files
download_files_example =
    download_files sys download_events request_a stored_a.table stored_a.files []
      (codes "/download/a") new_down (codes "a")

abbrev events : Events
events = record {
  auth_time = 1;
  logout_time = 1;
  login_template = none;
  index_template = none;
  login_events = record {
    allow_time = 1;
    failure_time = 1;
    expiry_time = 1;
    create_time = 1;
    session_bytes = some (1 ∷ []);
    csrf_bytes = some (2 ∷ []);
    copied = true;
  };
  upload_events = upload_events;
  remove_events = remove_events;
  download_events = download_events;
}

abbrev server : Server
server = record { sessions = []; attempts = []; manager = stored_a }

handle_request-IsAllowed_example :
    ((handle_request sys site events server request_a).0.manager.table ≡ stored_a.table)
    ⊎ IsAllowed sys site events request_a server
handle_request-IsAllowed_example = handle_request-IsAllowed sys site events request_a server

handle_request_sessions_example :
    Among [] (handle_request sys site events server request_a).0.sessions
    ⊎ ((raw_path : Bytes) × (request_a.path ≡ some raw_path)
        × (url_decode raw_path ≡ (true, codes "/api/login"))
        × (is_post request_a.method ≡ true)
        × IsEntitled sys site events request_a server)
handle_request_sessions_example = handle_request_sessions sys site events request_a server
