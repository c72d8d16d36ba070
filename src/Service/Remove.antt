-- ===== src/Service/Remove.antt =====
-- src/server/Service.cpp, Delete: the handler of requests to delete a file. What the calls of the
-- system report is an argument; a file that is there is removed by std::remove.
pub mod Atomic
pub mod Stored
pub mod Whole
use asyn_log_system_cloud_st.Base.{
  ℕ, Bool, true, false, not, ◌||◌, Option, none, some, [], ◌∷◌, Bytes, codes, length, is_empty, ltb,
  if◌then◌else◌,
}
use asyn_log_system_cloud_st.Base.Maps.{lookup, assign, erase}
use asyn_log_system_cloud_st.Http.Url.{url_decode}
use asyn_log_system_cloud_st.Store.Info.{StorageInfo}
use asyn_log_system_cloud_st.Store.Manager.{
  Table, Files, DataManager, Report, DataResult, ok, not_found, already_exists, persist_failed,
  get_one_by_url, delete,
}
use asyn_log_system_cloud_st.Service.Platform.{Request, System, Settings}
use asyn_log_system_cloud_st.Service.Text.{is_download_path}
use asyn_log_system_cloud_st.Service.Reply.{
  Headers, Reply, Answer, Checked, pass, refuse, send_text, bad_request, internal_error,
}
use asyn_log_system_cloud_st.Service.Reply

-- The reports of the system during one deletion: an error of the existence test, the temporary
-- name, the rename to it, the rename back, and the calls of `Persist`.
pub record RemoveEvents : Type 0 where
  pub existence_error : Bool
  pub trash_path : Option Bytes
  pub moved : Bool
  pub restored : Bool
  pub persist_report : Report

-- std::rename where it succeeds.
unfoldable pub rename_file : Bytes → Bytes → Files → Files
rename_file source target files = elim (lookup source files) [
  | none ↦ files
  | some content ↦ assign target content (erase source files)
]

-- The checks in their order: the URL and its entry.
unfoldable pub check_remove : Settings → Table → Request → Checked (Bytes × StorageInfo)
unfolding get_one_by_url
check_remove settings table request = elim (request.find_header (codes "DeleteUrl")) [
  | none ↦ refuse (bad_request (codes "invalid DeleteUrl header"))
  | some header ↦
      if is_empty header || ltb 4096 (length header)
      then refuse (bad_request (codes "invalid DeleteUrl header"))
      else let (decoded, url) = url_decode header in
        if not decoded || not (is_download_path settings.storage.download_prefix url)
        then refuse (bad_request (codes "invalid download URL"))
        else elim (get_one_by_url table url) [
          | none ↦ refuse (Reply.not_found (codes "file not found"))
          | some info ↦ pass (url, info)
        ]
]

abbrev pub deleted : Answer
deleted = record { status = 200; reason = codes "OK"; text = codes "delete successful" }

-- The answer to each result of the data manager's `Delete`.
unfoldable pub remove_answer : DataResult → Answer
remove_answer ok = deleted
remove_answer not_found = Reply.not_found (codes "file not found")
remove_answer already_exists = internal_error (codes "cannot persist delete metadata")
remove_answer persist_failed = internal_error (codes "cannot persist delete metadata")

-- After `Delete` with the file in the trash: it is removed for good, or moved back; where it cannot
-- be moved back it stays.
unfoldable pub after_trash : Bytes → Bytes → Bool → DataManager × DataResult → DataManager × Answer
unfolding rename_file remove_answer
after_trash storage_path trash restored (m, ok) =
    (record m { files = erase trash m.files }, remove_answer ok)
after_trash storage_path trash restored (m, not_found) = (
  record m { files = if restored then rename_file trash storage_path m.files else m.files },
  remove_answer not_found,
)
after_trash storage_path trash restored (m, already_exists) = (
  record m { files = if restored then rename_file trash storage_path m.files else m.files },
  remove_answer already_exists,
)
after_trash storage_path trash restored (m, persist_failed) = (
  record m { files = if restored then rename_file trash storage_path m.files else m.files },
  remove_answer persist_failed,
)

-- From the existence test on.
unfoldable pub remove_stored :
    System → Settings → RemoveEvents → DataManager → Bytes → StorageInfo → DataManager × Answer
unfolding after_trash rename_file remove_answer
remove_stored sys settings ev m url info =
    if ev.existence_error
    then (m, internal_error (codes "cannot inspect stored file"))
    else elim (lookup info.storage_path m.files) [
      | none ↦
          let (m', result) = delete sys.json settings.storage ev.persist_report m url in
          (m', remove_answer result)
      | some content ↦ elim ev.trash_path [
        | none ↦ (m, internal_error (codes "cannot prepare delete transaction"))
        | some trash ↦
            let emptied = erase trash (assign trash [] m.files) in
            if not ev.moved
            then (
              record m { files = emptied },
              internal_error (codes "cannot move file to delete transaction"),
            )
            else after_trash info.storage_path trash ev.restored (
                delete sys.json settings.storage ev.persist_report
                  (record m { files = rename_file info.storage_path trash emptied }) url)
      ]
    ]

unfoldable pub remove_file :
    System → Settings → RemoveEvents → DataManager → Headers → Request → DataManager × Reply
unfolding check_remove remove_stored send_text
remove_file sys settings ev m headers request = elim (check_remove settings m.table request) [
  | refuse answer ↦ (m, send_text headers answer)
  | pass (url, info) ↦
      let (m', answer) = remove_stored sys settings ev m url info in (m', send_text headers answer)
]
