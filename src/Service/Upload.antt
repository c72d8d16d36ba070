-- ===== src/Service/Upload.antt =====
-- src/server/Service.cpp, Upload, with FileUtil::CommitNoReplace of Util.hpp. What the calls of the
-- system report is an argument; a file that is there is removed by std::remove and unlink.
pub mod Atomic
pub mod Commit
pub mod Whole
use asyn_log_system_cloud_st.Base.{
  ℕ, Bool, true, false, not, ◌&&◌, ◌||◌, Option, none, some, [], ◌∷◌, ◌++◌, Bytes, bytes_eq, codes,
  length, is_empty, ltb, if◌then◌else◌,
}
use asyn_log_system_cloud_st.Base.Integers.{ℤ}
use asyn_log_system_cloud_st.Base.Maps.{lookup, assign, erase}
use asyn_log_system_cloud_st.Store.Platform.{Config}
use asyn_log_system_cloud_st.Store.Info.{StorageInfo, new_storage_info}
use asyn_log_system_cloud_st.Store.Manager.{
  Table, Files, DataManager, Report, DataResult, ok, not_found, already_exists, persist_failed,
  get_one_by_url, insert,
}
use asyn_log_system_cloud_st.Service.Platform.{Request, System, Settings}
use asyn_log_system_cloud_st.Service.Text.{is_safe_file_name}
use asyn_log_system_cloud_st.Service.Reply.{
  Headers, Reply, Answer, Checked, pass, refuse, and_then, send_text, bad_request, internal_error,
  conflict,
}

-- What a request asks to store.
pub record Upload : Type 0 where
  pub filename : Bytes
  pub storage_type : Bytes
  pub directory : Bytes
  pub content : Bytes

-- The reports of the system during one upload: of the calls for the directory, the copy of the
-- body, the temporary file, its content, link and unlink, of stat, and of the calls of `Insert`.
pub record UploadEvents : Type 0 where
  pub directory_created : Bool
  pub copied : Bool
  pub temporary_path : Option Bytes
  pub written : Bool
  pub linked : Bool
  pub unlinked : Bool
  pub size : ℤ
  pub modified : ℤ
  pub accessed : ℤ
  pub persist_report : Report

unfoldable pub check_body : Settings → Request → Checked Bytes
check_body settings request = elim request.body [
  | none ↦ refuse (bad_request (codes "request body missing"))
  | some input ↦
      if is_empty input
      then refuse (bad_request (codes "empty files are not accepted"))
      else if ltb settings.max_upload_size (length input)
      then refuse (record {
        status = 413;
        reason = codes "Payload Too Large";
        text = codes "file too large";
      })
      else pass input
]

unfoldable pub check_name : System → Request → Checked Bytes
check_name sys request = elim (request.find_header (codes "FileName")) [
  | none ↦ refuse (bad_request (codes "invalid FileName header"))
  | some header ↦
      if is_empty header || ltb 1024 (length header)
      then refuse (bad_request (codes "invalid FileName header"))
      else elim (sys.base64_decode header) [
        | none ↦ refuse (bad_request (codes "invalid filename"))
        | some filename ↦
            if not (is_safe_file_name filename)
            then refuse (bad_request (codes "invalid filename"))
            else pass filename
      ]
]

-- The storage type and its directory.
unfoldable pub check_type : Settings → Request → Checked (Bytes × Bytes)
check_type settings request = elim (request.find_header (codes "StorageType")) [
  | none ↦ refuse (bad_request (codes "StorageType is required"))
  | some storage_type ↦
      if bytes_eq storage_type (codes "low")
      then pass (storage_type, settings.storage.low_storage_dir)
      else if bytes_eq storage_type (codes "deep")
      then pass (storage_type, settings.storage.deep_storage_dir)
      else refuse (bad_request (codes "invalid storage type"))
]

-- The checks in their order, up to the search for the URL.
unfoldable pub check_upload : System → Settings → Table → Request → Checked Upload
unfolding and_then check_body check_name check_type get_one_by_url
check_upload sys settings table request = and_then (check_body settings request) (λ content.
    and_then (check_name sys request) (λ filename.
      and_then (check_type settings request) (λ (storage_type, directory).
        elim (get_one_by_url table (settings.storage.download_prefix ++ filename)) [
          | some existing ↦ refuse conflict
          | none ↦ pass (record {
            filename = filename;
            storage_type = storage_type;
            directory = directory;
            content = content;
          })
        ])))

pub data CommitResult : Type 0 where
  committed file_exists commit_failed : CommitResult

-- `file_exists` is errno being EEXIST, which link sets when the final name is taken.
unfoldable pub commit_no_replace : Files → Bytes → Bytes → Bool → Bool → Files × CommitResult
commit_no_replace files temporary final linked unlinked = elim (lookup final files) [
  | some taken ↦ (files, file_exists)
  | none ↦ elim (lookup temporary files) [
    | none ↦ (files, commit_failed)
    | some content ↦
        if not linked
        then (files, commit_failed)
        else let both = assign final content files in
          if not unlinked
          then (erase final both, commit_failed)
          else (erase temporary both, committed)
  ]
]

-- What is written to the temporary file; `none` where SetContent or Compress returns false.
unfoldable pub stored_content : System → UploadEvents → Upload → Option Bytes
stored_content sys ev u =
    if bytes_eq u.storage_type (codes "low")
    then if ev.written then some u.content else none
    else elim (sys.pack u.content) [
      | none ↦ none
      | some packed ↦ if ev.written then some packed else none
    ]

abbrev pub created : Answer
created = record { status = 201; reason = codes "Created"; text = codes "upload successful" }

-- The answer to what `Insert` gives, and the files after it: an entry that was not added takes its
-- file with it.
unfoldable pub after_insert : Bytes → DataManager × DataResult → DataManager × Answer
after_insert final (m, result) = elim result [
  | ok ↦ (m, created)
  | already_exists ↦ (record m { files = erase final m.files }, conflict)
  | persist_failed ↦ (
    record m { files = erase final m.files },
    internal_error (codes "cannot persist upload metadata"),
  )
  | not_found ↦ (
    record m { files = erase final m.files },
    internal_error (codes "cannot persist upload metadata"),
  )
]

-- From `NewStorageInfo` on.
unfoldable pub record_upload :
    System → Settings → UploadEvents → DataManager → Bytes → Bytes → DataManager × Answer
unfolding after_insert
record_upload sys settings ev m final storage_type =
    elim (new_storage_info sys.paths settings.storage ev.size ev.modified ev.accessed final
      storage_type) [
        | none ↦ (
          record m { files = erase final m.files },
          internal_error (codes "cannot read stored file metadata"),
        )
        | some info ↦ after_insert final (insert sys.json settings.storage ev.persist_report m info)
      ]

-- What follows the commit. Unless the file is committed, the guard removes the temporary file.
unfoldable pub after_commit :
    System
    → Settings
    → UploadEvents
    → Table
    → Upload
    → Bytes
    → Files × CommitResult
    → DataManager × Answer
unfolding record_upload
after_commit sys settings ev table u temporary (files, file_exists) =
    (record { table = table; files = erase temporary files }, conflict)
after_commit sys settings ev table u temporary (files, commit_failed) = (
  record { table = table; files = erase temporary files },
  internal_error (codes "cannot commit upload"),
)
after_commit sys settings ev table u temporary (files, committed) =
    record_upload sys settings ev (record { table = table; files = files })
      (sys.join_path u.directory u.filename) u.storage_type

unfoldable pub commit_upload :
    System → Settings → UploadEvents → DataManager → Upload → Bytes → DataManager × Answer
unfolding after_commit
commit_upload sys settings ev m u temporary = after_commit sys settings ev m.table u temporary (
    commit_no_replace m.files temporary (sys.join_path u.directory u.filename) ev.linked
      ev.unlinked)

-- From the storage directory on.
unfoldable pub store_upload :
    System → Settings → UploadEvents → DataManager → Upload → DataManager × Answer
unfolding stored_content commit_upload
store_upload sys settings ev m u =
    if not ev.directory_created
    then (m, internal_error (codes "cannot create storage directory"))
    else if not ev.copied
    then (m, internal_error (codes "cannot read upload body"))
    else elim ev.temporary_path [
      | none ↦ (m, internal_error (codes "cannot create upload temporary file"))
      | some temporary ↦
          let empty = assign temporary [] m.files in
          elim (stored_content sys ev u) [
            | none ↦ (
              record m { files = erase temporary empty },
              internal_error (codes "cannot store upload"),
            )
            | some content ↦
                commit_upload sys settings ev (record m { files = assign temporary content empty })
                  u temporary
          ]
    ]

unfoldable pub upload :
    System → Settings → UploadEvents → DataManager → Headers → Request → DataManager × Reply
unfolding check_upload store_upload send_text
upload sys settings ev m headers request = elim (check_upload sys settings m.table request) [
  | refuse answer ↦ (m, send_text headers answer)
  | pass u ↦ let (m', answer) = store_upload sys settings ev m u in (m', send_text headers answer)
]
