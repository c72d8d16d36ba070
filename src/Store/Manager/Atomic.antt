-- ===== src/Store/Manager/Atomic.antt =====
-- src/server/DataManager.cpp: a change reaches memory and disk together, or neither.
use asyn_log_system_cloud_st.Base.{
  Bool, true, false, ◌≡◌, ◌≢◌, refl, ◌⊎◌, inl, inr, Option, none, some, [], Bytes, bytes_eq_iff,
  arith, Option-cases, Bool-cases,
}
use asyn_log_system_cloud_st.Base.Maps.{lookup, assign, erase, lookup-assign, lookup-erase}
use asyn_log_system_cloud_st.Store.Platform.{Json, Config}
use asyn_log_system_cloud_st.Store.Manager.{Table, Files, Report, body_of, persist}

-- mkstemp makes a file that was not there.
abbrev pub IsFresh : Config → Report → Files → Type 0
IsFresh config r files =
    (t : Bytes)
    → r.temporary_path ≡ some t
    → (lookup t files ≡ none) × (t ≢ config.storage_info_file)

-- What a call of `Persist` does to the files: it replaces the metadata, or it changes nothing.
pub data Change (config : Config) (body : Option Bytes) (before after : Files) : Bool → Type 0 where
  replaced :
      (lookup config.storage_info_file after ≡ body)
      → ((p : Bytes) → p ≢ config.storage_info_file → lookup p after ≡ lookup p before)
      → Change config body before after true
  kept : ((p : Bytes) → lookup p after ≡ lookup p before) → Change config body before after false

-- Writing the temporary file and removing it leaves every file as it was.
removed :
    (t : Bytes) (a b : Bytes) (files : Files) (p : Bytes)
    → lookup t files ≡ none
    → (lookup p (erase t (assign t a files)) ≡ lookup p files)
      × (lookup p (erase t (assign t b (assign t a files))) ≡ lookup p files)
removed t a b files p absent = ground (
  arith,
  lookup-erase t p (assign t a files),
  lookup-erase t p (assign t b (assign t a files)),
  lookup-assign t p b (assign t a files),
  lookup-assign t p a files,
  bytes_eq_iff t p,
)

module _ (j : Json) (config : Config) (r : Report) (table : Table) (files : Files) where
  -- The ways in which a call of `Persist` ends.
  persist_cases :
      (persist j config r table files ≡ (files, false))
      ⊎ ((t : Bytes) × (body : Bytes) × (r.temporary_path ≡ some t)
          × (body_of j table ≡ some body)
          × ((persist j config r table files ≡ (erase t (assign t [] files), false))
              ⊎ ((persist j config r table files
                    ≡ (erase t (assign t body (assign t [] files)), false))
                  ⊎ (persist j config r table files ≡ (
                    assign config.storage_info_file body
                        (erase t (assign t body (assign t [] files))),
                    true,
                  )))))
  unfolding persist
  persist_cases = elim (Option-cases (body_of j table)) [
    | inl e ↦ inl (ground arith)
    | inr (body, e) ↦ elim (Option-cases r.temporary_path) [
      | inl n ↦ inl (ground arith)
      | inr (t, n) ↦ elim (Bool-cases r.directory_created) [
        | inr d ↦ inl (ground arith)
        | inl d ↦ inr (t, body, n, e, ground arith)
      ]
    ]
  ]

  pub persist-Change :
      IsFresh config r files
      → Change config
          (body_of j table)
          files
          (persist j config r table files).0
          (persist j config r table files).1
  persist-Change fresh = elim persist_cases [
    | inl e ↦ rw e (kept (λ p. refl))
    | inr (t, body, n, b, c) ↦
        let (absent, other) = fresh t n in
        elim c [
          | inl e ↦ rw e (kept (λ p. (removed t [] body files p absent).0))
          | inr (inl e) ↦ rw e (kept (λ p. (removed t [] body files p absent).1))
          | inr (inr e) ↦
              let filled = erase t (assign t body (assign t [] files)) in
              rw (e, b)
                (replaced
                  (ground (
                    arith,
                    lookup-assign config.storage_info_file config.storage_info_file body filled,
                    bytes_eq_iff config.storage_info_file config.storage_info_file,
                  ))
                  (λ p q. ground (
                    arith,
                    lookup-assign config.storage_info_file p body filled,
                    bytes_eq_iff config.storage_info_file p,
                    (removed t [] body files p absent).1,
                  )))
        ]
  ]
