-- ===== src/Service/Remove/Atomic.antt =====
-- src/server/Service.cpp, Delete: a deletion removes the file with its entry, or the content stays.
use asyn_log_system_cloud_st.Base.{
  ◌≡◌, ◌≢◌, refl, ap, ◌∙◌, ◌⊎◌, inl, Bool, false, none, some, [], Bytes, bytes_eq, bytes_eq_iff,
  arith, if◌then◌else◌,
}
use asyn_log_system_cloud_st.Base.Maps.{lookup, assign, erase, lookup-assign, lookup-erase}
use asyn_log_system_cloud_st.Store.Manager.{
  Files, DataManager, DataResult, ok, not_found, already_exists, persist_failed, body_of,
}
use asyn_log_system_cloud_st.Store.Manager.Atomic.{IsFresh}
use asyn_log_system_cloud_st.Store.Manager.Changes.{Committed}
use asyn_log_system_cloud_st.Service.Platform.{System, Settings}
use asyn_log_system_cloud_st.Service.Reply.{Answer}
use asyn_log_system_cloud_st.Service.Remove.{
  RemoveEvents, rename_file, deleted, remove_answer, after_trash,
}

-- The entry is gone from the table and from the metadata file, the file is gone, and no other entry
-- or file has changed.
pub record IsRemoved (sys : System) (settings : Settings) (m : DataManager) (url path : Bytes)
    (q : DataManager) : Type 0 where
  pub removed : lookup path q.files ≡ none
  pub table : (u : Bytes) → lookup u q.table ≡ (if bytes_eq url u then none else lookup u m.table)
  pub on_disk : lookup settings.storage.storage_info_file q.files ≡ body_of sys.json q.table
  pub elsewhere :
      (p : Bytes)
      → p ≢ path
      → p ≢ settings.storage.storage_info_file
      → lookup p q.files ≡ lookup p m.files

-- The table is as it was, and so is every file, unless the file could not be moved back: then its
-- content is kept under the temporary name.
pub record IsKept (ev : RemoveEvents) (m : DataManager) (path : Bytes) (q : DataManager)
    : Type 0 where
  pub same_table : q.table ≡ m.table
  pub content :
      ((p : Bytes) → lookup p q.files ≡ lookup p m.files)
      ⊎ ((ev.restored ≡ false)
          × ((trash : Bytes) × (ev.trash_path ≡ some trash)
              × (lookup trash q.files ≡ lookup path m.files)
              × ((p : Bytes) → p ≢ trash → p ≢ path → lookup p q.files ≡ lookup p m.files)))

-- The temporary file of `Persist` is new, and so is the temporary name of the deletion; the stored
-- file is not the metadata file.
pub record AreApart (settings : Settings) (ev : RemoveEvents) (m : DataManager) (path : Bytes)
    : Type 0 where
  pub trash_new :
      (t : Bytes)
      → ev.trash_path ≡ some t
      → (lookup t m.files ≡ none) × (t ≢ settings.storage.storage_info_file)
  pub persist_new :
      (t : Bytes)
      → ev.persist_report.temporary_path ≡ some t
      → (lookup t m.files ≡ none)
        × (t ≢ settings.storage.storage_info_file)
        × (ev.trash_path ≢ some t)
  pub path_apart : path ≢ settings.storage.storage_info_file

pub lookup-rename_file :
    (source target content : Bytes) (files : Files) (p : Bytes)
    → lookup source files ≡ some content
    → lookup p (rename_file source target files) ≡ (
        if bytes_eq target p
        then some content
        else if bytes_eq source p
        then none
        else lookup p files)
unfolding rename_file
lookup-rename_file source target content files p e =
    ground (arith, lookup-assign target p content (erase source files), lookup-erase source p files)

pub answer_status : (r : DataResult) → r ≢ ok → (remove_answer r).status ≢ 200
unfolding remove_answer
answer_status ok n = absurd (n refl)
answer_status not_found n = λ s. omega (arith, s)
answer_status already_exists n = λ s. omega (arith, s)
answer_status persist_failed n = λ s. omega (arith, s)

-- After a failed `Delete` the file is moved back, or left in the trash.
pub after_trash_failed :
    (path trash : Bytes) (restored : Bool) (x : DataManager × DataResult)
    → x.1 ≢ ok
    → ((after_trash path trash restored x).0
        ≡ record x.0 { files = if restored then rename_file trash path x.0.files else x.0.files })
      × ((after_trash path trash restored x).1.status ≢ 200)
unfolding after_trash
after_trash_failed path trash restored (m, ok) n = absurd (n refl)
after_trash_failed path trash restored (m, not_found) n = (refl, answer_status not_found n)
after_trash_failed path trash restored (m, already_exists) n =
    (refl, answer_status already_exists n)
after_trash_failed path trash restored (m, persist_failed) n =
    (refl, answer_status persist_failed n)

after_trash_ok :
    (path trash : Bytes) (restored : Bool) (x : DataManager × DataResult)
    → x.1 ≡ ok
    → after_trash path trash restored x ≡ (record x.0 { files = erase trash x.0.files }, deleted)
unfolding after_trash remove_answer
after_trash_ok path trash restored (m, r) e = rw e refl

module _ (sys : System) (settings : Settings) (ev : RemoveEvents) (m : DataManager) (url : Bytes)
    (path : Bytes) (h : AreApart settings ev m path) where
  -- What a deletion comes to.
  abbrev pub Outcome : DataManager × Answer → Type 0
  Outcome (q, answer) =
      ((answer.status ≡ 200) × IsRemoved sys settings m url path q)
      ⊎ ((answer.status ≢ 200) × IsKept ev m path q)

  module _ (trash content : Bytes) (named : ev.trash_path ≡ some trash)
      (there : lookup path m.files ≡ some content) where
    abbrev pub emptied : Files
    emptied = erase trash (assign trash [] m.files)

    abbrev pub in_trash : DataManager
    in_trash = record m { files = rename_file path trash emptied }

    lookup-emptied : (p : Bytes) → lookup p emptied ≡ lookup p m.files
    lookup-emptied p = ground (
      arith,
      (h.trash_new trash named).0,
      lookup-erase trash p (assign trash [] m.files),
      lookup-assign trash p [] m.files,
      bytes_eq_iff trash p,
    )

    pub lookup-in_trash :
        (p : Bytes)
        → lookup p in_trash.files ≡ (
            if bytes_eq trash p
            then some content
            else if bytes_eq path p
            then none
            else lookup p m.files)
    lookup-in_trash p =
        lookup-rename_file path trash content emptied p (lookup-emptied path ∙ there)
        ∙ ground (arith, lookup-emptied p)

    pub in_trash-IsFresh : IsFresh settings.storage ev.persist_report in_trash.files
    in_trash-IsFresh t e =
        let (gone, other, apart) = h.persist_new t e in
        let distinct : trash ≢ t = λ same. apart (named ∙ ap some same) in
        (
          ground (arith, gone, there, lookup-in_trash t, bytes_eq_iff trash t, bytes_eq_iff path t),
          other,
        )

    pub trash_apart : trash ≢ path
    trash_apart same =
        let gone = (h.trash_new trash named).0 in ground (arith, ap (λ p. lookup p m.files) same)

    pub removed_lem :
        (x : DataManager × DataResult)
        → x.1 ≡ ok
        → Committed sys.json settings.storage in_trash
            (λ u. if bytes_eq url u then none else lookup u m.table)
            x.0
        → Outcome (after_trash path trash ev.restored x)
    removed_lem x e c = rw (after_trash_ok path trash ev.restored x e) (
        inl (
          refl,
          record {
            removed = ground (
              arith,
              lookup-erase trash path x.0.files,
              c.elsewhere path h.path_apart,
              lookup-in_trash path,
              bytes_eq_iff path path,
            );
            table = c.in_memory;
            on_disk =
                ground (
                  arith,
                  lookup-erase trash settings.storage.storage_info_file x.0.files,
                  (h.trash_new trash named).1,
                  bytes_eq_iff trash settings.storage.storage_info_file,
                )
                ∙ c.on_disk;
            elsewhere = λ p n k. ground (
              arith,
              (h.trash_new trash named).0,
              lookup-erase trash p x.0.files,
              c.elsewhere p k,
              lookup-in_trash p,
              bytes_eq_iff trash p,
              bytes_eq_iff path p,
            );
          },
        ))
