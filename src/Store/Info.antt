-- ===== src/Store/Info.antt =====
-- src/server/DataManager.hpp and DataManager.cpp, StorageInfo: what is known of one stored file,
-- how it is read from the file system, and how it is read from and written to JSON.
pub mod Valid
pub mod RoundTrip
use asyn_log_system_cloud_st.Base.{
  ℕ, Bool, not, ◌&&◌, ◌||◌, Option, none, some, List, [], ◌∷◌, ◌++◌, Bytes, bytes_eq, codes,
  is_empty, if◌then◌else◌,
}
use asyn_log_system_cloud_st.Base.Integers.{ℤ, pos, is_negative, to_unsigned}
use asyn_log_system_cloud_st.Store.Platform.{Json, Paths, Config}

pub record StorageInfo : Type 0 where
  pub mtime : ℤ
  pub atime : ℤ
  pub fsize : ℕ
  pub storage_path : Bytes
  pub url : Bytes
  pub storage_type : Bytes

-- `storage_type == "low" || storage_type == "deep"`.
unfoldable pub is_storage_type : Bytes → Bool
is_storage_type t = bytes_eq t (codes "low") || bytes_eq t (codes "deep")

-- `size`, `modified` and `accessed` are what the three calls of stat give for `actual_path`. The
-- name of the file is std::filesystem's.
unfoldable pub new_storage_info : Paths → Config → ℤ → ℤ → ℤ → Bytes → Bytes → Option StorageInfo
unfolding is_storage_type is_negative to_unsigned
new_storage_info paths config size modified accessed final_path storage_type =
    if not (is_storage_type storage_type)
    then none
    else if is_negative size || (is_negative modified || is_negative accessed)
    then none
    else some (record {
      mtime = modified;
      atime = accessed;
      fsize = to_unsigned size;
      storage_path = final_path;
      url = config.download_prefix ++ paths.filename final_path;
      storage_type = storage_type;
    })

module _ (j : Json) where
  -- The entry of one file in the array that is written.
  unfoldable pub to_json : StorageInfo → j.Value
  to_json info =
      let a = j.set j.null_value (codes "mtime_") (j.of_int64 info.mtime) in
      let b = j.set a (codes "atime_") (j.of_int64 info.atime) in
      let c = j.set b (codes "fsize_") (j.of_uint64 info.fsize) in
      let d = j.set c (codes "url_") (j.of_string info.url) in
      let e = j.set d (codes "storage_path_") (j.of_string info.storage_path) in
      j.set e (codes "storage_type_") (j.of_string info.storage_type)

  -- The test of the members' presence and types.
  unfoldable pub has_members : j.Value → Bool
  has_members v =
      j.is_object v
      && (j.is_string (j.get v (codes "storage_path_"))
          && (j.is_string (j.get v (codes "url_"))
              && (not (is_empty (j.as_string (j.get v (codes "storage_path_"))))
                  && (not (is_empty (j.as_string (j.get v (codes "url_"))))
                      && ((j.is_uint64 (j.get v (codes "fsize_"))
                            || j.is_int64 (j.get v (codes "fsize_")))
                          && (j.is_int64 (j.get v (codes "mtime_"))
                              && j.is_int64 (j.get v (codes "atime_"))))))))

  -- Some number is negative.
  unfoldable pub has_negative : j.Value → Bool
  has_negative v =
      (j.is_int64 (j.get v (codes "fsize_")) && is_negative (j.as_int64 (j.get v (codes "fsize_"))))
      || (is_negative (j.as_int64 (j.get v (codes "mtime_")))
          || is_negative (j.as_int64 (j.get v (codes "atime_"))))

  unfoldable pub size_of : j.Value → ℕ
  size_of v =
      if j.is_uint64 (j.get v (codes "fsize_"))
      then j.as_uint64 (j.get v (codes "fsize_"))
      else to_unsigned (
          if j.is_int64 (j.get v (codes "fsize_"))
          then j.as_int64 (j.get v (codes "fsize_"))
          else pos 0)

  module _ (paths : Paths) (config : Config) where
    -- An entry of an older version has no storage type: it is told from the directory.
    unfoldable pub type_of : j.Value → Bytes
    type_of v =
        if j.is_member v (codes "storage_type_") && j.is_string (j.get v (codes "storage_type_"))
        then j.as_string (j.get v (codes "storage_type_"))
        else if bytes_eq
            (paths.lexically_normal
              (paths.parent_path (j.as_string (j.get v (codes "storage_path_")))))
            (paths.lexically_normal config.deep_storage_dir)
        then codes "deep"
        else codes "low"

    -- The directory where files of a type are stored.
    unfoldable pub directory_of : Bytes → Bytes
    directory_of storage_type = paths.lexically_normal (
        if bytes_eq storage_type (codes "deep")
        then config.deep_storage_dir
        else config.low_storage_dir)

    -- The checks of an entry that has been read.
    unfoldable pub is_accepted : StorageInfo → Bool
    unfolding is_storage_type directory_of
    is_accepted info =
        let storage_path = paths.lexically_normal info.storage_path in
        is_storage_type info.storage_type
        && (not (is_empty (paths.filename storage_path))
            && (bytes_eq (paths.parent_path storage_path) (directory_of info.storage_type)
                && bytes_eq info.url (config.download_prefix ++ paths.filename storage_path)))

    unfoldable pub parse_storage_info : j.Value → Option StorageInfo
    unfolding has_members has_negative size_of type_of is_accepted
    parse_storage_info v =
        let info : StorageInfo = record {
          mtime = j.as_int64 (j.get v (codes "mtime_"));
          atime = j.as_int64 (j.get v (codes "atime_"));
          fsize = size_of v;
          storage_path = j.as_string (j.get v (codes "storage_path_"));
          url = j.as_string (j.get v (codes "url_"));
          storage_type = type_of v;
        } in
        if not (has_members v)
        then none
        else if has_negative v
        then none
        else if is_accepted info
        then some info
        else none
