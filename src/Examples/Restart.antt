-- ===== src/Examples/Restart.antt =====
-- src/server/DataManager.cpp and Service.cpp: a restart and the order of the page, with documents
-- as a small instance of JSON.
use asyn_log_system_cloud_st.Base.{◌≡◌, refl, subst, none, some, [], ◌∷◌, codes, bytes_eq, arith}
use asyn_log_system_cloud_st.Base.Maps.{lookup, assign, erase}
use asyn_log_system_cloud_st.Base.Integers.{pos, is_negative}
use asyn_log_system_cloud_st.Store.Info.{
  StorageInfo, to_json, is_accepted, is_storage_type, directory_of,
}
use asyn_log_system_cloud_st.Store.Info.RoundTrip.{IsSaved}
use asyn_log_system_cloud_st.Store.Manager.{
  Table, DataManager, append_all, get_all, body_of, persist, commit, insert, init_load,
}
use asyn_log_system_cloud_st.Store.Manager.History.{Reach, here, next, inserted}
use asyn_log_system_cloud_st.Store.Manager.Restart.{readable, Reach-init_load}
use asyn_log_system_cloud_st.Service.Pages.{list_files}
use asyn_log_system_cloud_st.Service.Pages.Order.{swap, list_files-Reorders}
use asyn_log_system_cloud_st.Examples.Documents.{
  Document, null_d, array_d, append_d, set_d, int_d, uint_d, text_d, encode, decode_all, decode,
  decode_atom, cut, documents, documents-IsJson,
}
use asyn_log_system_cloud_st.Examples.Store.{
  flat, settings, info_a, empty, all_well, all_well-IsFresh,
}
use asyn_log_system_cloud_st.Examples.Service.{sys}

-- What is written of `info_a` alone.
abbrev saved_a : Document
saved_a = append_d array_d (
    set_d
      (set_d
        (set_d
          (set_d
            (set_d (set_d null_d (codes "mtime_") (int_d (pos 0))) (codes "atime_") (int_d (pos 0)))
            (codes "fsize_") (uint_d 1))
          (codes "url_") (text_d (codes "/download/a")))
        (codes "storage_path_") (text_d (codes "a")))
      (codes "storage_type_") (text_d (codes "low")))

info_a-IsSaved : IsSaved documents flat settings info_a
unfolding is_accepted is_storage_type directory_of bytes_eq is_negative
info_a-IsSaved = record {
  mtime_fits = omega arith;
  atime_fits = omega arith;
  modified = refl;
  accessed = refl;
  size_fits = omega arith;
  has_path = refl;
  has_url = refl;
  accepted = refl;
}

abbrev after_insert : DataManager
after_insert = record {
  table = (codes "/download/a", info_a) ∷ [];
  files = (codes "data", encode saved_a) ∷ [];
}

insert_runs : (insert documents settings all_well empty info_a).0 ≡ after_insert
unfolding insert commit persist body_of lookup assign erase bytes_eq append_all get_all to_json
    encode
insert_runs = refl

after_insert-Reach : Reach documents settings (IsSaved documents flat settings) empty after_insert
after_insert-Reach =
    subst (Reach documents settings (IsSaved documents flat settings) empty) insert_runs
      (next here (inserted all_well info_a info_a-IsSaved all_well-IsFresh))

reads_back :
    decode_all (encode saved_a) ≡ some (append_all documents array_d (get_all after_insert.table))
unfolding append_all get_all to_json encode decode_all decode decode_atom cut
reads_back = refl

written_a : body_of documents after_insert.table ≡ some (encode saved_a)
unfolding body_of append_all get_all to_json encode
written_a = refl

no_file : lookup settings.storage_info_file empty.files ≡ none
unfolding lookup
no_file = refl

Reach-init_load_example :
    init_load documents flat settings (readable (lookup (codes "data") after_insert.files))
    ≡ some ((codes "/download/a", info_a) ∷ [])
Reach-init_load_example =
    Reach-init_load documents documents-IsJson flat settings empty after_insert (encode saved_a)
      refl no_file after_insert-Reach written_a reads_back

abbrev info_b : StorageInfo
info_b = record info_a { storage_path = codes "ab"; url = codes "/download/ab" }

abbrev table_ab : Table
table_ab = (codes "/download/a", info_a) ∷ (codes "/download/ab", info_b) ∷ []

abbrev table_ba : Table
table_ba = (codes "/download/ab", info_b) ∷ (codes "/download/a", info_a) ∷ []

list_files-Reorders_example :
    list_files sys (some (codes "{{FILE_LIST}}")) table_ab []
    ≡ list_files sys (some (codes "{{FILE_LIST}}")) table_ba []
list_files-Reorders_example =
    list_files-Reorders sys (some (codes "{{FILE_LIST}}")) [] (codes "/download/")
      ((λ e. cc, tt), (tt, tt)) ((refl, refl), ((refl, refl), tt))
      (swap (codes "/download/a", info_a) (codes "/download/ab", info_b))
