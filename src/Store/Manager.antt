-- ===== src/Store/Manager.antt =====
-- src/server/DataManager.cpp, DataManager: the table of the stored files in memory and its copy on
-- disk. Insert and Delete hold `mutation_mutex_` throughout, so each is one step. The files are a
-- map from paths to contents; what the calls of the system report is an argument.
pub mod Atomic
pub mod History
pub mod Loading
pub mod Changes
pub mod Restart
use asyn_log_system_cloud_st.Base.{
  ℕ, Bool, true, false, not, Option, none, some, List, [], ◌∷◌, ◌++◌, Bytes, if◌then◌else◌, ◌&&◌,
  ◌||◌,
}
use asyn_log_system_cloud_st.Base.Maps.{lookup, assign, erase}
use asyn_log_system_cloud_st.Store.Platform.{Json, Paths, Config}
use asyn_log_system_cloud_st.Store.Info.{StorageInfo, to_json, parse_storage_info}

abbrev pub Table : Type 0
Table = List (Bytes × StorageInfo)

abbrev pub Files : Type 0
Files = List (Bytes × Bytes)

pub data DataResult : Type 0 where
  ok not_found already_exists persist_failed : DataResult

-- The member `table_`, and the files.
pub record DataManager : Type 0 where
  pub table : Table
  pub files : Files

-- What the system reports during one call of `Persist`: whether the directory could be created, the
-- path of the temporary file (`none` is a failure), whether it was written and whether it was
-- renamed.
pub record Report : Type 0 where
  pub directory_created : Bool
  pub temporary_path : Option Bytes
  pub written : Bool
  pub renamed : Bool

-- The elements of `items` added to an array, in order.
unfoldable pub append_all : (j : Json) → j.Value → List StorageInfo → j.Value
append_all j root [] = root
append_all j root (info ∷ items) = append_all j (j.append root (to_json j info)) items

-- `items->push_back(entry.second)` for each entry.
unfoldable pub get_all : Table → List StorageInfo
get_all [] = []
get_all ((url, info) ∷ table) = info ∷ get_all table

unfoldable pub get_one_by_url : Table → Bytes → Option StorageInfo
get_one_by_url table url = lookup url table

-- The body that is written for a table.
unfoldable pub body_of : Json → Table → Option Bytes
body_of j table = j.serialize (append_all j j.array_value (get_all table))

-- A temporary file that was created is renamed, or removed.
unfoldable pub persist : Json → Config → Report → Table → Files → Files × Bool
persist j config r table files = elim (body_of j table) [
  | none ↦ (files, false)
  | some body ↦ if not r.directory_created then (files, false) else elim r.temporary_path [
    | none ↦ (files, false)
    | some temporary ↦
        let created = assign temporary [] files in
        if not r.written
        then (erase temporary created, false)
        else let filled = assign temporary body created in
          if not r.renamed
          then (erase temporary filled, false)
          else (assign config.storage_info_file body (erase temporary filled), true)
  ]
]

-- The end of `Insert` and `Delete`: the new table becomes the current one once it is persisted.
unfoldable pub commit : Json → Config → Report → DataManager → Table → DataManager × DataResult
commit j config r m next =
    let (files, persisted) = persist j config r next m.files in
    if persisted
    then (record { table = next; files = files }, ok)
    else (record m { files = files }, persist_failed)

unfoldable pub insert :
    Json → Config → Report → DataManager → StorageInfo → DataManager × DataResult
insert j config r m info = elim (lookup info.url m.table) [
  | some found ↦ (m, already_exists)
  | none ↦ commit j config r m (assign info.url info m.table)
]

unfoldable pub delete : Json → Config → Report → DataManager → Bytes → DataManager × DataResult
delete j config r m url = elim (lookup url m.table) [
  | none ↦ (m, not_found)
  | some found ↦ commit j config r m (erase url m.table)
]

-- The loop of `InitLoad` over the array's elements; a URL that occurs twice is an error.
unfoldable pub load_all : (j : Json) → Paths → Config → List j.Value → Table → Option Table
load_all j paths config [] loaded = some loaded
load_all j paths config (v ∷ vs) loaded = elim (parse_storage_info j paths config v) [
  | none ↦ none
  | some info ↦ elim (lookup info.url loaded) [
    | some found ↦ none
    | none ↦ load_all j paths config vs (assign info.url info loaded)
  ]
]

-- `contents` is `none` where the file does not exist and `some none` where it cannot be read. The
-- table is empty before.
unfoldable pub init_load : Json → Paths → Config → Option (Option Bytes) → Option Table
init_load j paths config none = some []
init_load j paths config (some none) = none
init_load j paths config (some (some body)) = elim (j.unserialize body) [
  | none ↦ none
  | some root ↦
      let loaded = load_all j paths config (j.elements root) [] in
      if j.is_null root then some [] else if not (j.is_array root) then none else loaded
]
