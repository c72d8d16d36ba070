-- ===== src/Store/Manager/Changes.antt =====
-- src/server/DataManager.cpp: what Insert and Delete do, on every branch.
use asyn_log_system_cloud_st.Base.{
  Bool, ◌≡◌, ◌≢◌, refl, ◌∙◌, ◌⊎◌, inl, inr, Option, none, some, Bytes, bytes_eq, if◌then◌else◌,
  arith, Option-cases,
}
use asyn_log_system_cloud_st.Base.Maps.{lookup, assign, erase, lookup-assign, lookup-erase}
use asyn_log_system_cloud_st.Store.Platform.{Json, Config}
use asyn_log_system_cloud_st.Store.Info.{StorageInfo}
use asyn_log_system_cloud_st.Store.Manager.{
  Table, Files, ok, not_found, already_exists, persist_failed, DataManager, Report, body_of,
  persist, commit, insert, delete,
}
use asyn_log_system_cloud_st.Store.Manager.Atomic.{IsFresh, Change, replaced, kept, persist-Change}

-- A change that succeeded: `next` describes the new table, which is what the file holds, and no
-- other file has changed.
pub record Committed (j : Json) (config : Config) (m : DataManager)
    (next : Bytes → Option StorageInfo) (q : DataManager) : Type 0 where
  pub in_memory : (u : Bytes) → lookup u q.table ≡ next u
  pub on_disk : lookup config.storage_info_file q.files ≡ body_of j q.table
  pub elsewhere : (p : Bytes) → p ≢ config.storage_info_file → lookup p q.files ≡ lookup p m.files

-- A change that was refused: neither the table nor a file has changed.
pub record Refused (m q : DataManager) : Type 0 where
  pub same_table : q.table ≡ m.table
  pub same_files : (p : Bytes) → lookup p q.files ≡ lookup p m.files

module _ (j : Json) (config : Config) (r : Report) (m : DataManager) where
  pub commit_cases :
      (next : Table)
      → IsFresh config r m.files
      → (((commit j config r m next).1 ≡ ok)
          × Committed j config m (λ u. lookup u next) (commit j config r m next).0
          × ((commit j config r m next).0.table ≡ next))
        ⊎ (((commit j config r m next).1 ≡ persist_failed) × Refused m (commit j config r m next).0)
  unfolding commit
  commit_cases next fresh =
      go (persist j config r next m.files) refl (persist-Change j config r next m.files fresh)
    where
      go :
          (x : Files × Bool)
          → persist j config r next m.files ≡ x
          → Change config (body_of j next) m.files x.0 x.1
          → (((commit j config r m next).1 ≡ ok)
              × Committed j config m (λ u. lookup u next) (commit j config r m next).0
              × ((commit j config r m next).0.table ≡ next))
            ⊎ (((commit j config r m next).1 ≡ persist_failed)
                × Refused m (commit j config r m next).0)
      go (files, _) e (replaced d o) =
          rw e (inl (refl, record { in_memory = λ u. refl; on_disk = d; elsewhere = o }, refl))
      go (files, _) e (kept s) = rw e (inr (refl, record { same_table = refl; same_files = s }))

  pub insert_found :
      (info found : StorageInfo)
      → lookup info.url m.table ≡ some found
      → insert j config r m info ≡ (m, already_exists)
  unfolding insert
  insert_found info found e = ground arith

  pub insert_new :
      (info : StorageInfo)
      → lookup info.url m.table ≡ none
      → insert j config r m info ≡ commit j config r m (assign info.url info m.table)
  unfolding insert
  insert_new info e = ground arith

  pub delete_found :
      (url : Bytes) (found : StorageInfo)
      → lookup url m.table ≡ some found
      → delete j config r m url ≡ commit j config r m (erase url m.table)
  unfolding delete
  delete_found url found e = ground arith

  pub delete_missing :
      (url : Bytes) → lookup url m.table ≡ none → delete j config r m url ≡ (m, not_found)
  unfolding delete
  delete_missing url e = ground arith

  -- If the temporary path is fresh, Insert reports already_exists exactly when the URL has an
  -- entry, and ok when the entry was added in memory and the file holds the new table's body, with
  -- every other entry and file as before. Unless it reports ok, neither the table nor any file has
  -- changed.
  pub insert_lem :
      (info : StorageInfo)
      → IsFresh config r m.files
      → ((lookup info.url m.table ≢ none)
          × ((insert j config r m info).1 ≡ already_exists)
          × Refused m (insert j config r m info).0)
        ⊎ ((lookup info.url m.table ≡ none)
            × ((((insert j config r m info).1 ≡ persist_failed)
                  × Refused m (insert j config r m info).0)
                ⊎ (((insert j config r m info).1 ≡ ok)
                    × Committed j config m
                        (λ u. if bytes_eq info.url u then some info else lookup u m.table)
                        (insert j config r m info).0)))
  insert_lem info fresh = elim (Option-cases (lookup info.url m.table)) [
    | inr (found, e) ↦
        rw (insert_found info found e)
          (inl (λ n. ground arith, refl, record { same_table = refl; same_files = λ p. refl }))
    | inl e ↦
        let next = assign info.url info m.table in
        rw (insert_new info e) (
          inr (
            e,
            elim (commit_cases next fresh) [
              | inl (o, c, s) ↦ inr (
                o,
                record {
                  in_memory = λ u. c.in_memory u ∙ lookup-assign info.url u info m.table;
                  on_disk = c.on_disk;
                  elsewhere = c.elsewhere;
                },
              )
              | inr f ↦ inl f
            ],
          ))
  ]

  -- If the temporary path is fresh, Delete reports not_found exactly when the URL has no entry, and
  -- ok when the entry is gone from memory and the file holds the new table's body, with every other
  -- entry and file as before. Unless it reports ok, neither the table nor any file has changed.
  pub delete_lem :
      (url : Bytes)
      → IsFresh config r m.files
      → ((lookup url m.table ≡ none)
          × ((delete j config r m url).1 ≡ not_found)
          × Refused m (delete j config r m url).0)
        ⊎ ((lookup url m.table ≢ none)
            × ((((delete j config r m url).1 ≡ persist_failed)
                  × Refused m (delete j config r m url).0)
                ⊎ (((delete j config r m url).1 ≡ ok)
                    × Committed j config m
                        (λ u. if bytes_eq url u then none else lookup u m.table)
                        (delete j config r m url).0)))
  delete_lem url fresh = elim (Option-cases (lookup url m.table)) [
    | inl e ↦
        rw (delete_missing url e)
          (inl (e, refl, record { same_table = refl; same_files = λ p. refl }))
    | inr (found, e) ↦ rw (delete_found url found e) (
        inr (
          λ n. ground arith,
          elim (commit_cases (erase url m.table) fresh) [
            | inl (o, c, s) ↦ inr (
              o,
              record {
                in_memory = λ u. c.in_memory u ∙ lookup-erase url u m.table;
                on_disk = c.on_disk;
                elsewhere = c.elsewhere;
              },
            )
            | inr f ↦ inl f
          ],
        ))
  ]
