-- ===== src/Service/Remove/Stored.antt =====
-- src/server/Service.cpp, Delete: once the entry was found.
use asyn_log_system_cloud_st.Base.{
  ◌≡◌, ◌≢◌, refl, sym, ap, ◌∙◌, ◌⊎◌, inl, inr, none, some, [], Bytes, bytes_eq, bytes_eq_iff, arith,
  Option-cases, Bool-cases, if◌then◌else◌, subst,
}
use asyn_log_system_cloud_st.Base.Maps.{lookup, assign, erase, lookup-assign, lookup-erase}
use asyn_log_system_cloud_st.Store.Info.{StorageInfo}
use asyn_log_system_cloud_st.Store.Manager.{Files, DataManager, DataResult, ok, delete}
use asyn_log_system_cloud_st.Store.Manager.Changes.{Committed, Refused, delete_lem}
use asyn_log_system_cloud_st.Service.Platform.{System, Settings}
use asyn_log_system_cloud_st.Service.Remove.{
  RemoveEvents, rename_file, remove_answer, after_trash, remove_stored,
}
use asyn_log_system_cloud_st.Service.Remove.Atomic.{
  AreApart, lookup-rename_file, answer_status, after_trash_failed, Outcome, in_trash,
  lookup-in_trash, in_trash-IsFresh, removed_lem,
}

module _ (sys : System) (settings : Settings) (ev : RemoveEvents) (m : DataManager) (url : Bytes)
    (info : StorageInfo) (h : AreApart settings ev m info.storage_path) where
  abbrev path : Bytes
  path = info.storage_path

  module _ (trash content : Bytes) (named : ev.trash_path ≡ some trash)
      (there : lookup path m.files ≡ some content) where
    abbrev held : DataManager
    held = in_trash sys settings ev m url path h trash content named there

    held_files :
        (p : Bytes)
        → lookup p held.files ≡ (
            if bytes_eq trash p
            then some content
            else if bytes_eq path p
            then none
            else lookup p m.files)
    held_files = lookup-in_trash sys settings ev m url path h trash content named there

    -- Moving the file back undoes the move to the trash.
    moved_back :
        (files : Files) (p : Bytes)
        → ((x : Bytes) → lookup x files ≡ lookup x held.files)
        → lookup p (rename_file trash path files) ≡ lookup p m.files
    moved_back files p same =
        lookup-rename_file trash path content files p
          (same trash ∙ (held_files trash ∙ ground (arith, bytes_eq_iff trash trash)))
        ∙ ground (
          arith,
          same p,
          held_files p,
          there,
          (h.trash_new trash named).0,
          bytes_eq_iff trash p,
          bytes_eq_iff path p,
        )

    kept_lem :
        (x : DataManager × DataResult)
        → x.1 ≢ ok
        → Refused held x.0
        → Outcome sys settings ev m url path h (after_trash path trash ev.restored x)
    kept_lem x n f = elim (Bool-cases ev.restored) [
      | inl e ↦
          let (q, status) = after_trash_failed path trash ev.restored x n in
          inr (
            status,
            record {
              same_table = ap (λ y. y.table) q ∙ f.same_table;
              content = inl (λ p.
                  ap (λ y. lookup p y.files) q ∙ (rw e (moved_back x.0.files p f.same_files)));
            },
          )
      | inr e ↦
          let (q, status) = after_trash_failed path trash ev.restored x n in
          inr (
            status,
            record {
              same_table = ap (λ y. y.table) q ∙ f.same_table;
              content = inr (
                e,
                (
                  trash,
                  named,
                  ap (λ y. lookup trash y.files) q
                      ∙ (rw e (f.same_files trash))
                      ∙ (held_files trash ∙ ground (arith, bytes_eq_iff trash trash, there)),
                  λ p a b.
                      ap (λ y. lookup p y.files) q
                      ∙ (rw e (f.same_files p))
                      ∙ (held_files p ∙ ground (arith, bytes_eq_iff trash p, bytes_eq_iff path p)),
                ),
              );
            },
          )
    ]

    trash_lem : Outcome sys settings ev m url path h (
        after_trash path trash ev.restored
          (delete sys.json settings.storage ev.persist_report held url))
    trash_lem =
        elim (delete_lem sys.json settings.storage ev.persist_report held url
          (in_trash-IsFresh sys settings ev m url path h trash content named there)) [
            | inl (n, d, f) ↦ kept_lem _ (λ o. cc) f
            | inr (n, inl (d, f)) ↦ kept_lem _ (λ o. cc) f
            | inr (n, inr (d, c)) ↦
                removed_lem sys settings ev m url path h trash content named there _ d c
          ]

  -- Where there is no file, only the entry is deleted.
  absent_lem :
      lookup path m.files ≡ none
      → (x : DataManager × DataResult)
      → x ≡ delete sys.json settings.storage ev.persist_report m url
      → Outcome sys settings ev m url path h (x.0, remove_answer x.1)
  unfolding remove_answer
  absent_lem gone x same =
      elim (delete_lem sys.json settings.storage ev.persist_report m url
        (λ t e. let (a, b, c) = h.persist_new t e in (a, b))) [
          | inl (n, d, f) ↦ refused x (λ o. cc) (subst (λ y. Refused m y.0) (sym same) f)
          | inr (n, inl (d, f)) ↦ refused x (λ o. cc) (subst (λ y. Refused m y.0) (sym same) f)
          | inr (n, inr (d, c)) ↦ done x (ap (λ y. y.1) same ∙ d) (
              subst
                (λ y.
                  Committed sys.json settings.storage m
                    (λ u. if bytes_eq url u then none else lookup u m.table) y.0)
                (sym same) c)
        ]
    where
      refused :
          (y : DataManager × DataResult)
          → y.1 ≢ ok
          → Refused m y.0
          → Outcome sys settings ev m url path h (y.0, remove_answer y.1)
      refused y n f =
          inr
            (answer_status y.1 n, record { same_table = f.same_table; content = inl f.same_files })

      done :
          (y : DataManager × DataResult)
          → y.1 ≡ ok
          → Committed sys.json settings.storage m
              (λ u. if bytes_eq url u then none else lookup u m.table)
              y.0
          → Outcome sys settings ev m url path h (y.0, remove_answer y.1)
      done y e c = inl (
        rw e refl,
        record {
          removed = c.elsewhere path h.path_apart ∙ gone;
          table = c.in_memory;
          on_disk = c.on_disk;
          elsewhere = λ p n k. c.elsewhere p k;
        },
      )

  -- The ways in which `remove_stored` goes.
  stored_cases :
      (((remove_stored sys settings ev m url info).1.status ≡ 500)
        × ((remove_stored sys settings ev m url info).0.table ≡ m.table)
        × (((remove_stored sys settings ev m url info).0.files ≡ m.files)
            ⊎ ((t : Bytes) × (ev.trash_path ≡ some t)
                × ((remove_stored sys settings ev m url info).0.files
                    ≡ erase t (assign t [] m.files)))))
      ⊎ (((lookup path m.files ≡ none)
            × (remove_stored sys settings ev m url info ≡ (
              (delete sys.json settings.storage ev.persist_report m url).0,
              remove_answer (delete sys.json settings.storage ev.persist_report m url).1,
            )))
          ⊎ ((trash : Bytes) × (content : Bytes) × (ev.trash_path ≡ some trash)
              × (lookup path m.files ≡ some content)
              × (remove_stored sys settings ev m url info
                  ≡ after_trash path trash ev.restored (
                      delete sys.json settings.storage ev.persist_report
                        (record m {
                          files = rename_file path trash (erase trash (assign trash [] m.files));
                        })
                        url))))
  unfolding remove_stored
  stored_cases = elim (Bool-cases ev.existence_error) [
    | inl x ↦ inl (ground arith)
    | inr x ↦ elim (Option-cases (lookup path m.files)) [
      | inl gone ↦ inr (inl (gone, rw (remove_stored, x, gone) refl))
      | inr (content, there) ↦ elim (Option-cases ev.trash_path) [
        | inl n ↦ inl (ground arith)
        | inr (trash, n) ↦ elim (Bool-cases ev.moved) [
          | inr d ↦ inl (rw (remove_stored, x, there, n, d) (refl, refl, inr (trash, refl, refl)))
          | inl d ↦ inr (inr (trash, content, n, there, rw (remove_stored, x, there, n, d) refl))
        ]
      ]
    ]
  ]

  pub remove_stored_lem :
      Outcome sys settings ev m url path h (remove_stored sys settings ev m url info)
  remove_stored_lem = elim stored_cases [
    | inl (status, same, files) ↦ inr (
      λ s. omega (arith, s, status),
      record {
        same_table = same;
        content = inl (λ p. elim files [
          | inl f ↦ ap (lookup p) f
          | inr (t, n, f) ↦
              ap (lookup p) f
              ∙ ground (
                arith,
                (h.trash_new t n).0,
                lookup-erase t p (assign t [] m.files),
                lookup-assign t p [] m.files,
                bytes_eq_iff t p,
              )
        ]);
      },
    )
    | inr (inl (gone, e)) ↦ rw e (absent_lem gone _ refl)
    | inr (inr (trash, content, n, there, e)) ↦ rw e (trash_lem trash content n there)
  ]
