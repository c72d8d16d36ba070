-- ===== src/Service/Upload/Atomic.antt =====
-- src/server/Service.cpp, Upload: an upload is stored with its entry, or leaves nothing.
use asyn_log_system_cloud_st.Base.{
  codes, ◌≡◌, ◌≢◌, refl, ap, ◌∙◌, ◌⊎◌, inl, inr, none, some, Bytes, bytes_eq, bytes_eq_iff, arith,
  Option-cases, if◌then◌else◌,
}
use asyn_log_system_cloud_st.Base.Maps.{lookup, erase, lookup-erase}
use asyn_log_system_cloud_st.Store.Info.{StorageInfo, new_storage_info}
use asyn_log_system_cloud_st.Store.Manager.{
  Files, DataManager, DataResult, ok, already_exists, persist_failed, body_of, insert,
}
use asyn_log_system_cloud_st.Store.Manager.Atomic.{IsFresh}
use asyn_log_system_cloud_st.Store.Manager.Changes.{Committed, Refused, insert_lem}
use asyn_log_system_cloud_st.Service.Platform.{System, Settings}
use asyn_log_system_cloud_st.Service.Reply.{Answer, internal_error}
use asyn_log_system_cloud_st.Service.Upload.{UploadEvents, created, after_insert, record_upload}

-- The file with its content and its entry are there, the metadata file holds the new table's body,
-- and no other entry or file has changed.
pub record IsUploaded (sys : System) (settings : Settings) (m : DataManager) (final : Bytes)
    (content : Bytes) (info : StorageInfo) (q : DataManager) : Type 0 where
  pub stored : lookup final q.files ≡ some content
  pub table :
      (url : Bytes)
      → lookup url q.table ≡ (if bytes_eq info.url url then some info else lookup url m.table)
  pub on_disk : lookup settings.storage.storage_info_file q.files ≡ body_of sys.json q.table
  pub elsewhere :
      (p : Bytes)
      → p ≢ final
      → p ≢ settings.storage.storage_info_file
      → lookup p q.files ≡ lookup p m.files

-- The file that link made, seen from the files before the upload.
abbrev pub Linked : Bytes → Bytes → Files → Files → Type 0
Linked final content before after =
    (lookup final before ≡ none)
    × ((p : Bytes) → lookup p after ≡ (if bytes_eq final p then some content else lookup p before))

-- What the temporary file of `Persist` is: new, and neither the metadata nor the uploaded file.
abbrev pub IsNew : Settings → UploadEvents → Files → Bytes → Type 0
IsNew settings ev files final =
    (t : Bytes)
    → ev.persist_report.temporary_path ≡ some t
    → (lookup t files ≡ none) × (t ≢ settings.storage.storage_info_file) × (t ≢ final)

-- What the answer to `Insert` is, case by case.
after_ok :
    (final : Bytes) (x : DataManager × DataResult)
    → x.1 ≡ ok
    → after_insert final x ≡ (x.0, created)
unfolding after_insert
after_ok final (q, d) e = ground arith

after_failure :
    (final : Bytes) (x : DataManager × DataResult)
    → (x.1 ≡ already_exists) ⊎ (x.1 ≡ persist_failed)
    → ((after_insert final x).0 ≡ record x.0 { files = erase final x.0.files })
      × ((after_insert final x).1.status ≢ 201)
unfolding after_insert
after_failure final (q, d) (inl e) = rw e (refl, λ s. omega (arith, s))
after_failure final (q, d) (inr e) = rw e (refl, λ s. omega (arith, s))

module _ (sys : System) (settings : Settings) (ev : UploadEvents) (m : DataManager)
    (final : Bytes) where
  -- Removing the linked file takes the files back to what they were.
  unlinked_files :
      (content : Bytes) (after now : Files) (p : Bytes)
      → Linked final content m.files after
      → ((x : Bytes) → lookup x now ≡ lookup x after)
      → lookup p (erase final now) ≡ lookup p m.files
  unlinked_files content after now p (absent, same) kept =
      ground (arith, lookup-erase final p now, kept p, same p, bytes_eq_iff final p)

  Linked-IsFresh :
      (content : Bytes) (after : Files)
      → Linked final content m.files after
      → IsNew settings ev m.files final
      → IsFresh settings.storage ev.persist_report after
  Linked-IsFresh content after (absent, same) new_ t e =
      let (gone, other, apart) = new_ t e in (ground (arith, same t, bytes_eq_iff final t), other)

  -- After the file is linked: the entry is added, or the file is removed again.
  abbrev pub Recorded : Bytes → Bytes → DataManager × Answer → Type 0
  Recorded content storage_type (q, answer) =
      ((answer ≡ created)
        × ((info : StorageInfo) × (new_storage_info sys.paths settings.storage ev.size ev.modified
                ev.accessed final storage_type
              ≡ some info)
            × IsUploaded sys settings m final content info q))
      ⊎ ((answer.status ≢ 201) × Refused m q)

  module _ (content storage_type : Bytes) (after : Files)
      (linked : Linked final content m.files after) (new_ : IsNew settings ev m.files final)
      (apart : final ≢ settings.storage.storage_info_file) where
    abbrev pub holding : DataManager
    holding = record { table = m.table; files = after }

    record_none :
        new_storage_info sys.paths settings.storage ev.size ev.modified ev.accessed final
            storage_type
          ≡ none
        → record_upload sys settings ev holding final storage_type ≡ (
          record { table = m.table; files = erase final after },
          internal_error (codes "cannot read stored file metadata"),
        )
    unfolding record_upload
    record_none e = ground arith

    record_some :
        (info : StorageInfo)
        → new_storage_info sys.paths settings.storage ev.size ev.modified ev.accessed final
            storage_type
          ≡ some info
        → record_upload sys settings ev holding final storage_type
          ≡ after_insert final (insert sys.json settings.storage ev.persist_report holding info)
    unfolding record_upload
    record_some info e = ground arith

    -- `Insert` refused the entry.
    insert_failed :
        (x : DataManager × DataResult)
        → (x.1 ≡ already_exists) ⊎ (x.1 ≡ persist_failed)
        → Refused holding x.0
        → Recorded content storage_type (after_insert final x)
    insert_failed x d f =
        let (same, status) = after_failure final x d in
        inr (
          status,
          record {
            same_table = ap (λ q. q.table) same ∙ f.same_table;
            same_files = λ p.
                ap (λ q. lookup p q.files) same
                ∙ unlinked_files content after x.0.files p linked f.same_files;
          },
        )

    insert_done :
        (x : DataManager × DataResult) (info : StorageInfo)
        → new_storage_info sys.paths settings.storage ev.size ev.modified ev.accessed final
            storage_type
          ≡ some info
        → x.1 ≡ ok
        → Committed sys.json settings.storage holding
            (λ u. if bytes_eq info.url u then some info else lookup u holding.table)
            x.0
        → Recorded content storage_type (after_insert final x)
    insert_done x info e d c = rw (after_ok final x d) (
        inl (
          refl,
          (
            info,
            e,
            record {
              stored =
                  c.elsewhere final apart
                  ∙ (linked.1 final ∙ ground (arith, bytes_eq_iff final final));
              table = c.in_memory;
              on_disk = c.on_disk;
              elsewhere =
                  λ p n k. c.elsewhere p k ∙ (linked.1 p ∙ ground (arith, bytes_eq_iff final p));
            },
          ),
        ))

    pub record_upload_lem :
        Recorded content storage_type (record_upload sys settings ev holding final storage_type)
    record_upload_lem =
        elim (Option-cases (
          new_storage_info sys.paths settings.storage ev.size ev.modified ev.accessed final
            storage_type)) [
              | inl e ↦ rw (record_none e) (
                  inr (
                    (λ s. omega (arith, s)),
                    record {
                      same_table = refl;
                      same_files = λ p. unlinked_files content after after p linked (λ x. refl);
                    },
                  ))
              | inr (info, e) ↦
                  rw (record_some info e)
                    (elim (insert_lem sys.json settings.storage ev.persist_report holding info
                      (Linked-IsFresh content after linked new_)) [
                        | inl (n, d, f) ↦ insert_failed _ (inl d) f
                        | inr (n, inl (d, f)) ↦ insert_failed _ (inr d) f
                        | inr (n, inr (d, c)) ↦ insert_done _ info e d c
                      ])
            ]
