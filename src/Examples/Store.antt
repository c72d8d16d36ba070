-- ===== src/Examples/Store.antt =====
-- src/server/DataManager.cpp: the theorems at concrete inputs, with a small instance of JSON.
use asyn_log_system_cloud_st.Base.{
  ◌≡◌, ◌≢◌, refl, ◌⊎◌, true, false, none, some, [], ◌∷◌, ◌++◌, Bytes, codes, bytes_eq,
  if◌then◌else◌,
}
use asyn_log_system_cloud_st.Base.Maps.{lookup, IsMap, assign}
use asyn_log_system_cloud_st.Base.Integers.{pos, is_negative}
use asyn_log_system_cloud_st.Store.Platform.{Json, Paths, Config}
use asyn_log_system_cloud_st.Store.Info.{
  StorageInfo, parse_storage_info, has_members, has_negative, size_of, type_of, is_accepted,
  is_storage_type, directory_of,
}
use asyn_log_system_cloud_st.Store.Info.Valid.{IsStored, parse_storage_info-IsStored}
use asyn_log_system_cloud_st.Store.Manager.{
  ok, already_exists, persist_failed, DataManager, Report, init_load, load_all, insert,
}
use asyn_log_system_cloud_st.Store.Manager.Atomic.{IsFresh}
use asyn_log_system_cloud_st.Store.Manager.Changes.{Committed, Refused, insert_lem}
use asyn_log_system_cloud_st.Store.Manager.Loading.{Entries, init_load-Entries}
use asyn_log_system_cloud_st.Store.Manager.History.{
  here, next, inserted, IsConsistent, Reach-IsConsistent,
}

-- Texts without structure: every member that is no path and no type is the text itself.
abbrev pub texts : Json
texts = record {
  Value = Bytes;
  null_value = [];
  array_value = [];
  of_int64 = λ n. [];
  of_uint64 = λ n. n ∷ [];
  of_string = λ s. s;
  set = λ v k x. v ++ x;
  append = λ v x. v ++ x;
  get = λ v k.
      if bytes_eq k (codes "url_")
      then codes "/download/a"
      else if bytes_eq k (codes "storage_type_")
      then codes "low"
      else v;
  elements = λ v. v ∷ [];
  is_null = λ v. false;
  is_array = λ v. true;
  is_object = λ v. true;
  is_member = λ v k. true;
  is_string = λ v. true;
  is_int64 = λ v. true;
  is_uint64 = λ v. true;
  is_uint = λ v. true;
  is_int = λ v. true;
  is_bool = λ v. true;
  as_string = λ v. v;
  as_int64 = λ v. pos 0;
  as_uint64 = λ v. 1;
  as_uint = λ v. 80;
  as_int = λ v. pos 5;
  as_bool = λ v. true;
  text_of = λ v. some v;
  serialize = λ v. some v;
  unserialize = λ b. some b;
}

abbrev pub flat : Paths
flat = record { lexically_normal = λ p. p; parent_path = λ p. codes "low"; filename = λ p. p }

abbrev pub settings : Config
settings = record {
  storage_info_file = codes "data";
  deep_storage_dir = codes "deep";
  low_storage_dir = codes "low";
  download_prefix = codes "/download/";
}

abbrev pub info_a : StorageInfo
info_a = record {
  mtime = pos 0;
  atime = pos 0;
  fsize = 1;
  storage_path = codes "a";
  url = codes "/download/a";
  storage_type = codes "low";
}

parses : parse_storage_info texts flat settings (codes "a") ≡ some info_a
unfolding parse_storage_info has_members has_negative size_of type_of is_accepted is_storage_type
    directory_of bytes_eq is_negative
parses = refl

loads :
    init_load texts flat settings (some (some (codes "a")))
    ≡ some ((codes "/download/a", info_a) ∷ [])
unfolding init_load load_all parse_storage_info has_members has_negative size_of type_of is_accepted
    is_storage_type directory_of bytes_eq is_negative lookup assign
loads = refl

init_load-Entries_example :
    IsMap ((codes "/download/a", info_a) ∷ [])
    × Entries (IsStored flat settings) ((codes "/download/a", info_a) ∷ [])
init_load-Entries_example =
    init_load-Entries texts flat settings (some (some (codes "a")))
      ((codes "/download/a", info_a) ∷ []) loads

abbrev pub empty : DataManager
empty = record { table = []; files = [] }

abbrev pub all_well : Report
all_well = record {
  directory_created = true;
  temporary_path = some (codes "tmp");
  written = true;
  renamed = true;
}

tmp_other : (t : Bytes) → all_well.temporary_path ≡ some t → t ≢ settings.storage_info_file
tmp_other t e d = cc

pub all_well-IsFresh : IsFresh settings all_well []
unfolding lookup
all_well-IsFresh t e = (refl, tmp_other t e)

insert_lem_example :
    ((lookup info_a.url empty.table ≢ none)
      × ((insert texts settings all_well empty info_a).1 ≡ already_exists)
      × Refused empty (insert texts settings all_well empty info_a).0)
    ⊎ ((lookup info_a.url empty.table ≡ none)
        × ((((insert texts settings all_well empty info_a).1 ≡ persist_failed)
              × Refused empty (insert texts settings all_well empty info_a).0)
            ⊎ (((insert texts settings all_well empty info_a).1 ≡ ok)
                × Committed texts settings empty
                    (λ u. if bytes_eq info_a.url u then some info_a else lookup u empty.table)
                    (insert texts settings all_well empty info_a).0)))
insert_lem_example = insert_lem texts settings all_well empty info_a all_well-IsFresh

abbrev pub holds_a : DataManager
holds_a = record { table = (codes "/download/a", info_a) ∷ []; files = [] }

Reach-IsConsistent_example :
    IsConsistent texts settings
      (IsStored flat settings)
      empty
      (insert texts settings all_well empty info_a).0
Reach-IsConsistent_example =
    Reach-IsConsistent texts settings (IsStored flat settings) empty
      (insert texts settings all_well empty info_a).0 tt tt
      (next here (
        inserted all_well info_a
          (parse_storage_info-IsStored texts flat settings (codes "a") info_a parses)
          all_well-IsFresh))
