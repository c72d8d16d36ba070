-- ===== src/Store/Info/Valid.antt =====
-- src/server/DataManager.cpp: what an entry that was read from JSON satisfies.
use asyn_log_system_cloud_st.Base.{
  true, false, ◌≡◌, ◌≢◌, refl, ◌⊎◌, some, [], ◌++◌, Bytes, bytes_eq, bytes_eq_iff, codes, is_empty,
  arith,
}
use asyn_log_system_cloud_st.Base.Integers.{is_negative}
use asyn_log_system_cloud_st.Store.Platform.{Json, Paths, Config}
use asyn_log_system_cloud_st.Store.Info.{
  StorageInfo, is_storage_type, directory_of, is_accepted, has_negative, parse_storage_info,
}

-- The file lies directly in the directory of its type, and the URL is the prefix and its name. The
-- times are not negative.
pub record IsStored (paths : Paths) (config : Config) (info : StorageInfo) : Type 0 where
  pub modified : is_negative info.mtime ≡ false
  pub accessed : is_negative info.atime ≡ false
  pub known_type : (info.storage_type ≡ codes "low") ⊎ (info.storage_type ≡ codes "deep")
  pub named : paths.filename (paths.lexically_normal info.storage_path) ≢ []
  pub low_directory :
      info.storage_type ≡ codes "low"
      → paths.parent_path (paths.lexically_normal info.storage_path)
        ≡ paths.lexically_normal config.low_storage_dir
  pub deep_directory :
      info.storage_type ≡ codes "deep"
      → paths.parent_path (paths.lexically_normal info.storage_path)
        ≡ paths.lexically_normal config.deep_storage_dir
  pub url_of_name :
      info.url ≡ config.download_prefix ++ paths.filename (paths.lexically_normal info.storage_path)

module _ (j : Json) (paths : Paths) (config : Config) where
  accepted_lem :
      (info : StorageInfo)
      → is_accepted j paths config info ≡ true
      → (is_storage_type info.storage_type ≡ true)
        × (is_empty (paths.filename (paths.lexically_normal info.storage_path)) ≡ false)
        × (paths.parent_path (paths.lexically_normal info.storage_path)
            ≡ directory_of j paths config info.storage_type)
        × (info.url
            ≡ config.download_prefix ++ paths.filename (paths.lexically_normal info.storage_path))
  unfolding is_accepted
  accepted_lem info h = ground (
    arith,
    bytes_eq_iff (paths.parent_path (paths.lexically_normal info.storage_path))
        (directory_of j paths config info.storage_type),
    bytes_eq_iff info.url
        (config.download_prefix ++ paths.filename (paths.lexically_normal info.storage_path)),
  )

  parse_cases :
      (v : j.Value) (info : StorageInfo)
      → parse_storage_info j paths config v ≡ some info
      → (is_accepted j paths config info ≡ true)
        × (is_negative info.mtime ≡ false)
        × (is_negative info.atime ≡ false)
  unfolding parse_storage_info has_negative
  parse_cases v info h = ground arith

  type_lem : (t : Bytes) → is_storage_type t ≡ true → (t ≡ codes "low") ⊎ (t ≡ codes "deep")
  unfolding is_storage_type
  type_lem t h = ground (arith, bytes_eq_iff t (codes "low"), bytes_eq_iff t (codes "deep"))

  low_lem :
      (t : Bytes)
      → t ≡ codes "low"
      → directory_of j paths config t ≡ paths.lexically_normal config.low_storage_dir
  unfolding directory_of bytes_eq
  low_lem t e = rw e refl

  deep_lem :
      (t : Bytes)
      → t ≡ codes "deep"
      → directory_of j paths config t ≡ paths.lexically_normal config.deep_storage_dir
  unfolding directory_of bytes_eq
  deep_lem t e = rw e refl

  -- An entry that is read from JSON has times that are not negative and one of the two storage
  -- types; its file lies directly in the directory of that type, has a name, and its URL is the
  -- download prefix followed by the name.
  pub parse_storage_info-IsStored :
      (v : j.Value) (info : StorageInfo)
      → parse_storage_info j paths config v ≡ some info
      → IsStored paths config info
  parse_storage_info-IsStored v info h =
      let (accepted, modified, accessed) = parse_cases v info h in
      let (known, named, parent, url) = accepted_lem info accepted in
      record {
        modified = modified;
        accessed = accessed;
        known_type = type_lem info.storage_type known;
        named = λ e. ground (arith, named);
        low_directory = λ e. rw (low_lem info.storage_type e) at parent;
        deep_directory = λ e. rw (deep_lem info.storage_type e) at parent;
        url_of_name = url;
      }
