-- ===== src/Store/Manager/History.antt =====
-- src/server/DataManager.cpp: memory and disk agree over any sequence of changes.
use asyn_log_system_cloud_st.Base.{
  ◌≡◌, ◌≢◌, refl, sym, ◌∙◌, ◌⊎◌, inl, inr, [], ◌∷◌, Bytes, bytes_eq, subst, Option-cases,
  Bool-cases,
}
use asyn_log_system_cloud_st.Base.Maps.{lookup, assign, erase, IsMap, assign-IsMap, erase-IsMap}
use asyn_log_system_cloud_st.Store.Platform.{Json, Config}
use asyn_log_system_cloud_st.Store.Info.{StorageInfo}
use asyn_log_system_cloud_st.Store.Manager.{Table, DataManager, Report, body_of, insert, delete}
use asyn_log_system_cloud_st.Store.Manager.Atomic.{IsFresh}
use asyn_log_system_cloud_st.Store.Manager.Changes.{
  Committed, Refused, commit_cases, insert_found, insert_new, delete_found, delete_missing,
}
use asyn_log_system_cloud_st.Store.Manager.Loading.{Entries, assign-Entries}

-- A change with whatever the system reports. The entries that are inserted satisfy `P`.
pub data Step (j : Json) (config : Config) (P : StorageInfo → Type 0) (m : DataManager)
    : DataManager → Type 0 where
  inserted :
      (r : Report) (info : StorageInfo)
      → P info
      → IsFresh config r m.files
      → Step j config P m (insert j config r m info).0
  deleted :
      (r : Report) (url : Bytes)
      → IsFresh config r m.files
      → Step j config P m (delete j config r m url).0

pub data Reach (j : Json) (config : Config) (P : StorageInfo → Type 0) (start : DataManager)
    : DataManager → Type 0 where
  here : Reach j config P start start
  next :
      {m q : DataManager}
      → Reach j config P start m
      → Step j config P m q
      → Reach j config P start q

-- The table is a map whose entries satisfy `P` and stand under their URLs. The metadata file holds
-- its body, unless both are as they were at the start; the other files are as they were.
pub record IsConsistent (j : Json) (config : Config) (P : StorageInfo → Type 0)
    (start m : DataManager) : Type 0 where
  pub is_map : IsMap m.table
  pub entries : Entries P m.table
  pub synced :
      (lookup config.storage_info_file m.files ≡ body_of j m.table)
      ⊎ ((m.table ≡ start.table)
          × (lookup config.storage_info_file m.files ≡ lookup config.storage_info_file start.files))
  pub elsewhere :
      (p : Bytes) → p ≢ config.storage_info_file → lookup p m.files ≡ lookup p start.files

pub erase-Entries :
    (P : StorageInfo → Type 0) (url : Bytes) (table : Table)
    → Entries P table
    → Entries P (erase url table)
unfolding erase
erase-Entries P url [] h = tt
erase-Entries P url ((u, info) ∷ table) h = elim (Bool-cases (bytes_eq u url)) [
  | inl e ↦ rw e (erase-Entries P url table h.1)
  | inr e ↦ rw e (h.0, erase-Entries P url table h.1)
]

module _ (j : Json) (config : Config) (P : StorageInfo → Type 0) (start m : DataManager)
    (v : IsConsistent j config P start m) where
  Refused-IsConsistent : (q : DataManager) → Refused m q → IsConsistent j config P start q
  Refused-IsConsistent q f = record {
    is_map = subst IsMap (sym f.same_table) v.is_map;
    entries = subst (Entries P) (sym f.same_table) v.entries;
    synced = elim v.synced [
      | inl s ↦ inl (rw f.same_table (f.same_files config.storage_info_file ∙ s))
      | inr (t, s) ↦ inr (f.same_table ∙ t, f.same_files config.storage_info_file ∙ s)
    ];
    elsewhere = λ p n. f.same_files p ∙ v.elsewhere p n;
  }

  Committed-IsConsistent :
      (next_ : Table) (q : DataManager)
      → IsMap next_
      → Entries P next_
      → Committed j config m (λ u. lookup u next_) q
      → q.table ≡ next_
      → IsConsistent j config P start q
  Committed-IsConsistent next_ q m' h c e = record {
    is_map = subst IsMap (sym e) m';
    entries = subst (Entries P) (sym e) h;
    synced = inl c.on_disk;
    elsewhere = λ p n. c.elsewhere p n ∙ v.elsewhere p n;
  }

  Step-IsConsistent : (q : DataManager) → Step j config P m q → IsConsistent j config P start q
  Step-IsConsistent _ (inserted r info p fresh) = elim (Option-cases (lookup info.url m.table)) [
    | inr (found, e) ↦ rw (insert_found j config r m info found e) v
    | inl e ↦
        let table' = assign info.url info m.table in
        rw (insert_new j config r m info e) (elim (commit_cases j config r m table' fresh) [
          | inl (o, c, s) ↦
              Committed-IsConsistent table' _ (assign-IsMap info.url info m.table v.is_map)
                (assign-Entries P info m.table p v.entries) c s
          | inr (o, f) ↦ Refused-IsConsistent _ f
        ])
  ]
  Step-IsConsistent _ (deleted r url fresh) = elim (Option-cases (lookup url m.table)) [
    | inl e ↦ rw (delete_missing j config r m url e) v
    | inr (found, e) ↦
        let table' = erase url m.table in
        rw (delete_found j config r m url found e) (elim (commit_cases j config r m table' fresh) [
          | inl (o, c, s) ↦
              Committed-IsConsistent table' _ (erase-IsMap url m.table v.is_map)
                (erase-Entries P url m.table v.entries) c s
          | inr (o, f) ↦ Refused-IsConsistent _ f
        ])
  ]

-- Over every sequence of Insert and Delete calls with fresh temporary paths, whatever fails on the
-- way, the table keeps at most one entry for a URL, stored under its URL, and each entry keeps what
-- the first entries and the inserted ones satisfy. The metadata file holds the body of the table,
-- unless both are as they were at the start, and every other file is as it was at the start.
pub Reach-IsConsistent :
    (j : Json) (config : Config) (P : StorageInfo → Type 0) (start m : DataManager)
    → IsMap start.table
    → Entries P start.table
    → Reach j config P start m
    → IsConsistent j config P start m
Reach-IsConsistent j config P start _ k h here = record {
  is_map = k;
  entries = h;
  synced = inr (refl, refl);
  elsewhere = λ p n. refl;
}
Reach-IsConsistent j config P start _ k h (next {m} {q} reach s) =
    Step-IsConsistent j config P start m (Reach-IsConsistent j config P start m k h reach) q s
