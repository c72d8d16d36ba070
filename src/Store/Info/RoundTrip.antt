-- ===== src/Store/Info/RoundTrip.antt =====
-- src/server/DataManager.cpp: an entry that was written to JSON is read back.
use asyn_log_system_cloud_st.Base.{
  ℕ, true, false, ◌≡◌, ◌<◌, ◌⊎◌, inl, inr, ◌&&◌, Bool-cases, refl, ap, ◌∙◌, some, [], ◌∷◌, ◌++◌,
  Bytes, bytes_eq, codes, is_empty, IsU64, arith,
}
use asyn_log_system_cloud_st.Base.Integers.{ℤ, pos, negsuc, is_negative}
use asyn_log_system_cloud_st.Store.Platform.{Json, Paths, Config}
use asyn_log_system_cloud_st.Store.Info.{
  StorageInfo, to_json, has_members, has_negative, size_of, type_of, is_accepted,
  parse_storage_info,
}

-- The range of an int64_t.
abbrev pub IsI64 : ℤ → Type 0
IsI64 (pos n) = n < 9223372036854775808
IsI64 (negsuc n) = n < 9223372036854775808

-- Where `value[key] = x` makes a member: an object, or null, which becomes one.
abbrev pub IsSettable : (j : Json) → j.Value → Type 0
IsSettable j v = (j.is_null v ≡ true) ⊎ (j.is_object v ≡ true)

-- What JsonCpp documents of objects, arrays and values.
pub record IsJson (j : Json) : Type 0 where
  pub null_null : j.is_null j.null_value ≡ true
  pub get_set : (v x : j.Value) (k : Bytes) → IsSettable j v → j.get (j.set v k x) k ≡ x
  pub get_set_other :
      (v x : j.Value) (k l : Bytes)
      → IsSettable j v
      → bytes_eq k l ≡ false
      → j.get (j.set v k x) l ≡ j.get v l
  pub object_set : (v x : j.Value) (k : Bytes) → IsSettable j v → j.is_object (j.set v k x) ≡ true
  pub member_set : (v x : j.Value) (k : Bytes) → IsSettable j v → j.is_member (j.set v k x) k ≡ true
  pub is_string_of : (s : Bytes) → j.is_string (j.of_string s) ≡ true
  pub as_string_of : (s : Bytes) → j.as_string (j.of_string s) ≡ s
  pub is_int64_of : (n : ℤ) → IsI64 n → j.is_int64 (j.of_int64 n) ≡ true
  pub as_int64_of : (n : ℤ) → IsI64 n → j.as_int64 (j.of_int64 n) ≡ n
  pub is_uint64_of : (n : ℕ) → IsU64 n → j.is_uint64 (j.of_uint64 n) ≡ true
  pub as_uint64_of : (n : ℕ) → IsU64 n → j.as_uint64 (j.of_uint64 n) ≡ n
  pub uint_as_int :
      (n : ℕ)
      → IsU64 n
      → j.is_int64 (j.of_uint64 n) ≡ true
      → is_negative (j.as_int64 (j.of_uint64 n)) ≡ false
  pub array_empty : j.is_array j.array_value ≡ true
  pub elements_empty : j.elements j.array_value ≡ []
  pub array_append : (v x : j.Value) → j.is_array v ≡ true → j.is_array (j.append v x) ≡ true
  pub elements_append :
      (v x : j.Value) → j.is_array v ≡ true → j.elements (j.append v x) ≡ j.elements v ++ x ∷ []
  pub array_not_null : (v : j.Value) → j.is_array v ≡ true → j.is_null v ≡ false

-- An entry that the table may hold: the checks of reading accept it.
pub record IsSaved (j : Json) (paths : Paths) (config : Config) (info : StorageInfo) : Type 0 where
  pub mtime_fits : IsI64 info.mtime
  pub atime_fits : IsI64 info.atime
  pub modified : is_negative info.mtime ≡ false
  pub accessed : is_negative info.atime ≡ false
  pub size_fits : IsU64 info.fsize
  pub has_path : is_empty info.storage_path ≡ false
  pub has_url : is_empty info.url ≡ false
  pub accepted : is_accepted j paths config info ≡ true

module _ (j : Json) (laws : IsJson j) (info : StorageInfo) where
  -- The entry while its members are set, one after the other.
  abbrev with_mtime : j.Value
  with_mtime = j.set j.null_value (codes "mtime_") (j.of_int64 info.mtime)

  abbrev with_atime : j.Value
  with_atime = j.set with_mtime (codes "atime_") (j.of_int64 info.atime)

  abbrev with_fsize : j.Value
  with_fsize = j.set with_atime (codes "fsize_") (j.of_uint64 info.fsize)

  abbrev with_url : j.Value
  with_url = j.set with_fsize (codes "url_") (j.of_string info.url)

  abbrev with_path : j.Value
  with_path = j.set with_url (codes "storage_path_") (j.of_string info.storage_path)

  with_mtime-IsSettable : IsSettable j with_mtime
  with_mtime-IsSettable = inr (laws.object_set j.null_value _ _ (inl laws.null_null))

  with_atime-IsSettable : IsSettable j with_atime
  with_atime-IsSettable = inr (laws.object_set with_mtime _ _ with_mtime-IsSettable)

  with_fsize-IsSettable : IsSettable j with_fsize
  with_fsize-IsSettable = inr (laws.object_set with_atime _ _ with_atime-IsSettable)

  with_url-IsSettable : IsSettable j with_url
  with_url-IsSettable = inr (laws.object_set with_fsize _ _ with_fsize-IsSettable)

  with_path-IsSettable : IsSettable j with_path
  with_path-IsSettable = inr (laws.object_set with_url _ _ with_url-IsSettable)

  skip :
      (v x y : j.Value) (k l : Bytes)
      → IsSettable j v
      → bytes_eq k l ≡ false
      → j.get v l ≡ y
      → j.get (j.set v k x) l ≡ y
  skip v x y k l s h e = laws.get_set_other v x k l s h ∙ e

  get_type : j.get (to_json j info) (codes "storage_type_") ≡ j.of_string info.storage_type
  unfolding to_json
  get_type = laws.get_set with_path _ _ with_path-IsSettable

  get_path : j.get (to_json j info) (codes "storage_path_") ≡ j.of_string info.storage_path
  unfolding to_json bytes_eq
  get_path =
      skip with_path _ _ _ _ with_path-IsSettable refl
        (laws.get_set with_url _ _ with_url-IsSettable)

  get_url : j.get (to_json j info) (codes "url_") ≡ j.of_string info.url
  unfolding to_json bytes_eq
  get_url = skip with_path _ _ _ _ with_path-IsSettable refl (
      skip with_url _ _ _ _ with_url-IsSettable refl
        (laws.get_set with_fsize _ _ with_fsize-IsSettable))

  get_size : j.get (to_json j info) (codes "fsize_") ≡ j.of_uint64 info.fsize
  unfolding to_json bytes_eq
  get_size = skip with_path _ _ _ _ with_path-IsSettable refl (
      skip with_url _ _ _ _ with_url-IsSettable refl (
        skip with_fsize _ _ _ _ with_fsize-IsSettable refl
          (laws.get_set with_atime _ _ with_atime-IsSettable)))

  get_atime : j.get (to_json j info) (codes "atime_") ≡ j.of_int64 info.atime
  unfolding to_json bytes_eq
  get_atime = skip with_path _ _ _ _ with_path-IsSettable refl (
      skip with_url _ _ _ _ with_url-IsSettable refl (
        skip with_fsize _ _ _ _ with_fsize-IsSettable refl (
          skip with_atime _ _ _ _ with_atime-IsSettable refl
            (laws.get_set with_mtime _ _ with_mtime-IsSettable))))

  get_mtime : j.get (to_json j info) (codes "mtime_") ≡ j.of_int64 info.mtime
  unfolding to_json bytes_eq
  get_mtime = skip with_path _ _ _ _ with_path-IsSettable refl (
      skip with_url _ _ _ _ with_url-IsSettable refl (
        skip with_fsize _ _ _ _ with_fsize-IsSettable refl (
          skip with_atime _ _ _ _ with_atime-IsSettable refl (
            skip with_mtime _ _ _ _ with_mtime-IsSettable refl
              (laws.get_set j.null_value _ _ (inl laws.null_null))))))

  is_object-to_json : j.is_object (to_json j info) ≡ true
  unfolding to_json
  is_object-to_json = laws.object_set with_path _ _ with_path-IsSettable

  is_member-to_json : j.is_member (to_json j info) (codes "storage_type_") ≡ true
  unfolding to_json
  is_member-to_json = laws.member_set with_path _ _ with_path-IsSettable

  module _ (paths : Paths) (config : Config) (saved : IsSaved j paths config info) where
    has_members-to_json : has_members j (to_json j info) ≡ true
    unfolding has_members
    has_members-to_json =
        rw (get_path, get_url, get_size, get_mtime, get_atime, is_object-to_json)
          (ground (
            arith,
            laws.is_string_of info.storage_path,
            laws.is_string_of info.url,
            laws.as_string_of info.storage_path,
            laws.as_string_of info.url,
            laws.is_uint64_of info.fsize saved.size_fits,
            laws.is_int64_of info.mtime saved.mtime_fits,
            laws.is_int64_of info.atime saved.atime_fits,
            saved.has_path,
            saved.has_url,
          ))

    size-not_negative :
        j.is_int64 (j.of_uint64 info.fsize) && is_negative (j.as_int64 (j.of_uint64 info.fsize))
        ≡ false
    size-not_negative = elim (Bool-cases (j.is_int64 (j.of_uint64 info.fsize))) [
      | inl small ↦ rw small (laws.uint_as_int info.fsize saved.size_fits small)
      | inr large ↦ rw large
    ]

    has_negative-to_json : has_negative j (to_json j info) ≡ false
    unfolding has_negative
    has_negative-to_json =
        rw (get_size, get_mtime, get_atime, size-not_negative)
          (ground (
            arith,
            laws.as_int64_of info.mtime saved.mtime_fits,
            laws.as_int64_of info.atime saved.atime_fits,
            saved.modified,
            saved.accessed,
          ))

    size_of-to_json : size_of j (to_json j info) ≡ info.fsize
    unfolding size_of
    size_of-to_json = rw get_size (
        ground (
          arith,
          laws.is_uint64_of info.fsize saved.size_fits,
          laws.as_uint64_of info.fsize saved.size_fits,
        ))

    type_of-to_json : type_of j paths config (to_json j info) ≡ info.storage_type
    unfolding type_of
    type_of-to_json =
        rw (get_type, is_member-to_json)
          (ground (arith, laws.is_string_of info.storage_type, laws.as_string_of info.storage_type))

    -- The entry that is built of the members.
    abbrev read_entry : StorageInfo
    read_entry = record {
      mtime = j.as_int64 (j.get (to_json j info) (codes "mtime_"));
      atime = j.as_int64 (j.get (to_json j info) (codes "atime_"));
      fsize = size_of j (to_json j info);
      storage_path = j.as_string (j.get (to_json j info) (codes "storage_path_"));
      url = j.as_string (j.get (to_json j info) (codes "url_"));
      storage_type = type_of j paths config (to_json j info);
    }

    read_entry_lem : read_entry ≡ info
    read_entry_lem =
        rw
          (
            get_mtime,
            get_atime,
            get_path,
            get_url,
            size_of-to_json,
            type_of-to_json,
            laws.as_int64_of info.mtime saved.mtime_fits,
            laws.as_int64_of info.atime saved.atime_fits,
            laws.as_string_of info.storage_path,
            laws.as_string_of info.url,
          )
          refl

    accepts_lem : is_accepted j paths config read_entry ≡ true
    accepts_lem = ap (is_accepted j paths config) read_entry_lem ∙ saved.accepted

    built_lem : parse_storage_info j paths config (to_json j info) ≡ some read_entry
    unfolding parse_storage_info
    built_lem = rw (has_members-to_json, has_negative-to_json, accepts_lem) refl

    -- An entry that may be in the table is read back from the JSON value that is written of it.
    pub parse_storage_info-to_json : parse_storage_info j paths config (to_json j info) ≡ some info
    parse_storage_info-to_json = built_lem ∙ ap some read_entry_lem
