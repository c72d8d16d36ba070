-- ===== src/Store/Manager/Loading.antt =====
-- src/server/DataManager.cpp, InitLoad: a table that was loaded is well formed.
use asyn_log_system_cloud_st.Base.{
  ◌≡◌, refl, sym, ◌∙◌, ◌⊎◌, inl, inr, Option, none, some, List, [], ◌∷◌, Bytes, bytes_eq, arith,
  Option-cases, Bool-cases, subst,
}
use asyn_log_system_cloud_st.Base.Maps.{lookup, assign, IsMap, assign-IsMap}
use asyn_log_system_cloud_st.Store.Platform.{Json, Paths, Config}
use asyn_log_system_cloud_st.Store.Info.{StorageInfo, parse_storage_info}
use asyn_log_system_cloud_st.Store.Info.Valid.{IsStored, parse_storage_info-IsStored}
use asyn_log_system_cloud_st.Store.Manager.{Table, load_all, init_load}

-- Each entry of the table has a property and is stored under its URL.
abbrev pub Entries : (StorageInfo → Type 0) → Table → Type 0
Entries P [] = Unit {0}
Entries P ((url, info) ∷ table) = ((url ≡ info.url) × P info) × Entries P table

pub assign-Entries :
    (P : StorageInfo → Type 0) (info : StorageInfo) (table : Table)
    → P info
    → Entries P table
    → Entries P (assign info.url info table)
unfolding assign
assign-Entries P info [] p h = ((refl, p), tt)
assign-Entries P info ((url, old) ∷ table) p h = elim (Bool-cases (bytes_eq url info.url)) [
  | inl e ↦ rw e ((refl, p), h.1)
  | inr e ↦ rw e (h.0, assign-Entries P info table p h.1)
]

module _ (j : Json) (paths : Paths) (config : Config) where
  load_step :
      (v : j.Value) (vs : List j.Value) (loaded : Table) (info : StorageInfo)
      → parse_storage_info j paths config v ≡ some info
      → lookup info.url loaded ≡ none
      → load_all j paths config (v ∷ vs) loaded
        ≡ load_all j paths config vs (assign info.url info loaded)
  unfolding load_all
  load_step v vs loaded info p n = ground arith

  load_all-Entries :
      (vs : List j.Value) (loaded table : Table)
      → IsMap loaded
      → Entries (IsStored paths config) loaded
      → load_all j paths config vs loaded ≡ some table
      → IsMap table × Entries (IsStored paths config) table
  unfolding load_all
  load_all-Entries [] loaded table m h e =
      let same : loaded ≡ table = cc in
      (subst IsMap same m, subst (Entries (IsStored paths config)) same h)
  load_all-Entries (v ∷ vs) loaded table m h e =
      elim (Option-cases (parse_storage_info j paths config v)) [
        | inl n ↦ cc
        | inr (info, p) ↦ elim (Option-cases (lookup info.url loaded)) [
          | inr (found, f) ↦ cc
          | inl n ↦
              load_all-Entries vs (assign info.url info loaded) table
                (assign-IsMap info.url info loaded m)
                (assign-Entries (IsStored paths config) info loaded
                  (parse_storage_info-IsStored j paths config v info p) h)
                (sym (load_step v vs loaded info p n) ∙ e)
        ]
      ]

  root_cases :
      (body : Bytes) (table : Table)
      → init_load j paths config (some (some body)) ≡ some table
      → ([] ≡ table)
        ⊎ ((root : j.Value) × (load_all j paths config (j.elements root) [] ≡ some table))
  unfolding init_load
  root_cases body table e = elim (Option-cases (j.unserialize body)) [
    | inl n ↦ ground arith
    | inr (root, u) ↦ elim (Bool-cases (j.is_null root)) [
      | inl n ↦ inl (ground arith)
      | inr n ↦ inr (root, ground arith)
    ]
  ]

  no_entry : (table : Table) → [] ≡ table → IsMap table × Entries (IsStored paths config) table
  no_entry table e = rw (sym e) (tt, tt)

  -- Whatever the file holds, a table that InitLoad accepts has at most one entry for a URL, and
  -- each entry is stored under its own URL, lies in its storage directory and has the URL of its
  -- name.
  pub init_load-Entries :
      (contents : Option (Option Bytes)) (table : Table)
      → init_load j paths config contents ≡ some table
      → IsMap table × Entries (IsStored paths config) table
  unfolding init_load
  init_load-Entries none table e = no_entry table cc
  init_load-Entries (some none) table e = cc
  init_load-Entries (some (some body)) table e = elim (root_cases body table e) [
    | inl n ↦ no_entry table n
    | inr (root, l) ↦ load_all-Entries (j.elements root) [] table tt tt l
  ]
