-- ===== src/Service/Upload/Whole.antt =====
-- src/server/Service.cpp, Upload: the handler as a whole.
use asyn_log_system_cloud_st.Base.{
  codes, ◌≡◌, ◌≢◌, refl, ap, ◌⊎◌, inl, inr, none, some, [], Bytes, bytes_eq_iff, arith,
  Option-cases, Bool-cases,
}
use asyn_log_system_cloud_st.Base.Maps.{lookup, assign, erase, lookup-assign, lookup-erase}
use asyn_log_system_cloud_st.Store.Info.{StorageInfo, new_storage_info}
use asyn_log_system_cloud_st.Store.Manager.{Files, DataManager}
use asyn_log_system_cloud_st.Store.Manager.Changes.{Refused}
use asyn_log_system_cloud_st.Service.Platform.{Request, System, Settings}
use asyn_log_system_cloud_st.Service.Reply.{
  Headers, Reply, Answer, Checked, pass, refuse, send_text, and_then, internal_error,
}
use asyn_log_system_cloud_st.Service.Upload.{
  Upload, UploadEvents, check_upload, CommitResult, committed, file_exists, commit_failed,
  commit_no_replace, stored_content, after_commit, check_body, check_name, check_type,
  commit_upload, store_upload, upload,
}
use asyn_log_system_cloud_st.Service.Upload.Commit.{filled, Commits, commit_no_replace_lem}
use asyn_log_system_cloud_st.Service.Upload.Atomic.{IsUploaded, IsNew, Recorded, record_upload_lem}

module _ (sys : System) (settings : Settings) (ev : UploadEvents) (m : DataManager)
    (u : Upload) where
  abbrev place : Bytes
  place = sys.join_path u.directory u.filename

  module _ (temporary content : Bytes) (fresh : lookup temporary m.files ≡ none) where
    abbrev written_ : DataManager
    written_ = record m { files = filled temporary content m.files }

    after_commit_lem :
        IsNew settings ev m.files place
        → place ≢ settings.storage.storage_info_file
        → (x : Files × CommitResult) → Commits m.files temporary place content fresh x
        → Recorded sys settings ev m place content u.storage_type
            (after_commit sys settings ev m.table u temporary x)
    unfolding after_commit
    after_commit_lem new_ apart (after, committed) (inl (r, l)) =
        record_upload_lem sys settings ev m place content u.storage_type after l new_ apart
    after_commit_lem new_ apart (after, committed) (inr (inl r, same)) = cc
    after_commit_lem new_ apart (after, committed) (inr (inr r, same)) = cc
    after_commit_lem new_ apart (after, file_exists) (inl (r, l)) = cc
    after_commit_lem new_ apart (after, file_exists) (inr (r, same)) =
        inr (λ s. omega (arith, s), record { same_table = refl; same_files = same })
    after_commit_lem new_ apart (after, commit_failed) (inl (r, l)) = cc
    after_commit_lem new_ apart (after, commit_failed) (inr (r, same)) =
        inr (λ s. omega (arith, s), record { same_table = refl; same_files = same })

    commit_upload_lem :
        IsNew settings ev m.files place
        → place ≢ settings.storage.storage_info_file
        → Recorded sys settings ev m place content u.storage_type
            (commit_upload sys settings ev written_ u temporary)
    unfolding commit_upload
    commit_upload_lem new_ apart =
        after_commit_lem new_ apart
          (commit_no_replace (filled temporary content m.files) temporary place ev.linked
            ev.unlinked)
          (commit_no_replace_lem m.files temporary place content fresh ev.linked ev.unlinked)

  -- What storing comes to: the file and its entry, or nothing.
  abbrev pub Stored : DataManager × Answer → Type 0
  Stored (q, answer) =
      ((answer.status ≡ 201)
        × ((content : Bytes) × (info : StorageInfo) × (stored_content sys ev u ≡ some content)
            × (new_storage_info sys.paths settings.storage ev.size ev.modified ev.accessed place
                  u.storage_type
                ≡ some info)
            × IsUploaded sys settings m place content info q))
      ⊎ ((answer.status ≢ 201) × Refused m q)

  Recorded-Stored :
      (content : Bytes) (x : DataManager × Answer)
      → stored_content sys ev u ≡ some content
      → Recorded sys settings ev m place content u.storage_type x
      → Stored x
  Recorded-Stored content (q, answer) e (inl (a, (info, i, up))) =
      inl (ap (λ x. x.status) a, (content, info, e, i, up))
  Recorded-Stored content (q, answer) e (inr f) = inr f

  -- The ways in which `store_upload` goes: a call fails before there is a file, the temporary file
  -- cannot be written, or it goes on to the commit.
  store_cases :
      (((store_upload sys settings ev m u).0 ≡ m)
        × ((store_upload sys settings ev m u).1.status ≡ 500))
      ⊎ ((t : Bytes) × (ev.temporary_path ≡ some t)
          × ((store_upload sys settings ev m u ≡ (
            record { table = m.table; files = erase t (assign t [] m.files) },
            internal_error (codes "cannot store upload"),
          ))
              ⊎ ((content : Bytes) × (stored_content sys ev u ≡ some content)
                  × (store_upload sys settings ev m u
                      ≡ commit_upload sys settings ev
                          (record { table = m.table; files = filled t content m.files })
                          u
                          t))))
  unfolding store_upload
  store_cases = elim (Bool-cases ev.directory_created) [
    | inr d ↦ inl (ground arith)
    | inl d ↦ elim (Bool-cases ev.copied) [
      | inr c ↦ inl (ground arith)
      | inl c ↦ elim (Option-cases ev.temporary_path) [
        | inl n ↦ inl (ground arith)
        | inr (t, n) ↦ inr (
          t,
          n,
          elim (Option-cases (stored_content sys ev u)) [
            | inl e ↦ inl (ground arith)
            | inr (content, e) ↦ inr (content, e, ground arith)
          ],
        )
      ]
    ]
  ]

  store_upload_lem :
      ((t : Bytes) → ev.temporary_path ≡ some t → lookup t m.files ≡ none)
      → IsNew settings ev m.files place
      → place ≢ settings.storage.storage_info_file
      → Stored (store_upload sys settings ev m u)
  store_upload_lem fresh new_ apart = elim store_cases [
    | inl (same, status) ↦ inr (
      λ s. omega (arith, s, status),
      record {
        same_table = ap (λ q. q.table) same;
        same_files = λ p. ap (λ q. lookup p q.files) same;
      },
    )
    | inr (t, e, inl c) ↦ rw c (
        inr (
          λ s. omega (arith, s),
          record {
            same_table = refl;
            same_files = λ p. ground (
              arith,
              fresh t e,
              lookup-erase t p (assign t [] m.files),
              lookup-assign t p [] m.files,
              bytes_eq_iff t p,
            );
          },
        ))
    | inr (t, e, inr (content, s, c)) ↦
        rw c (Recorded-Stored content _ s (commit_upload_lem t content (fresh t e) new_ apart))
  ]

module _ (sys : System) (settings : Settings) (ev : UploadEvents) (m : DataManager)
    (headers : Headers) (request : Request) where
  upload_refused :
      (answer : Answer)
      → check_upload sys settings m.table request ≡ refuse answer
      → upload sys settings ev m headers request ≡ (m, send_text headers answer)
  unfolding upload
  upload_refused answer e = ground arith

  upload_passed :
      (u : Upload)
      → check_upload sys settings m.table request ≡ pass u
      → upload sys settings ev m headers request ≡ (
        (store_upload sys settings ev m u).0,
        send_text headers (store_upload sys settings ev m u).1,
      )
  unfolding upload
  upload_passed u e = rw (upload, e) refl

  body_refused : (a : Answer) → check_body settings request ≡ refuse a → a.status ≢ 201
  unfolding check_body
  body_refused a e = ground arith

  name_refused : (a : Answer) → check_name sys request ≡ refuse a → a.status ≢ 201
  unfolding check_name
  name_refused a e = ground arith

  type_refused : (a : Answer) → check_type settings request ≡ refuse a → a.status ≢ 201
  unfolding check_type
  type_refused a e = ground arith

  check_refused :
      (a : Answer) → check_upload sys settings m.table request ≡ refuse a → a.status ≢ 201
  unfolding check_upload and_then
  check_refused a e = ground (arith, body_refused a, name_refused a, type_refused a)

  -- What a request to upload comes to.
  abbrev pub Handled : DataManager → Reply → Type 0
  Handled q reply =
      ((reply.status ≡ 201)
        × ((u : Upload) × (content : Bytes) × (info : StorageInfo) × (check_upload sys settings
                m.table request
              ≡ pass u)
            × (stored_content sys ev u ≡ some content)
            × (new_storage_info sys.paths settings.storage ev.size ev.modified ev.accessed
                  (sys.join_path u.directory u.filename) u.storage_type
                ≡ some info)
            × IsUploaded sys settings m (sys.join_path u.directory u.filename) content info q))
      ⊎ ((reply.status ≢ 201) × Refused m q)

  Stored-Handled :
      (u : Upload) (x : DataManager × Answer)
      → check_upload sys settings m.table request ≡ pass u
      → Stored sys settings ev m u x
      → Handled x.0 (send_text headers x.1)
  unfolding send_text
  Stored-Handled u (q, answer) e (inl (s, (content, info, c, i, up))) =
      inl (s, (u, content, info, e, c, i, up))
  Stored-Handled u (q, answer) e (inr f) = inr f

  refused_status : (a : Answer) → a.status ≢ 201 → (send_text headers a).status ≢ 201
  unfolding send_text
  refused_status a n = n

  -- If the temporary files are new and the metadata file is not where the upload goes, then after
  -- an answer of 201 the request has passed the checks, its content, packed for deep storage,
  -- stands under its final name, its entry is in the table and in the metadata file, and no other
  -- entry or file has changed. After any other answer neither the table nor any file has changed,
  -- whatever call failed.
  pub upload_lem :
      ((t : Bytes) → ev.temporary_path ≡ some t → lookup t m.files ≡ none)
      → ((u : Upload)
          → check_upload sys settings m.table request ≡ pass u
          → IsNew settings ev m.files (sys.join_path u.directory u.filename)
            × (sys.join_path u.directory u.filename ≢ settings.storage.storage_info_file))
      → Handled
          (upload sys settings ev m headers request).0
          (upload sys settings ev m headers request).1
  upload_lem fresh places = go (check_upload sys settings m.table request) refl
    where
      go :
          (c : Checked Upload)
          → check_upload sys settings m.table request ≡ c
          → Handled
              (upload sys settings ev m headers request).0
              (upload sys settings ev m headers request).1
      go (refuse a) e = rw (upload_refused a e) (
          inr (
            refused_status a (check_refused a e),
            record { same_table = refl; same_files = λ p. refl },
          ))
      go (pass u) e =
          let (new_, apart) = places u e in
          rw (upload_passed u e)
            (Stored-Handled u _ e (store_upload_lem sys settings ev m u fresh new_ apart))
