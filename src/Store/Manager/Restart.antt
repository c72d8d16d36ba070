-- ===== src/Store/Manager/Restart.antt =====
-- src/server/DataManager.cpp: after a restart, InitLoad brings back the table.
use asyn_log_system_cloud_st.Base.{
  ◌≡◌, ◌≢◌, refl, sym, ap, subst, ◌∙◌, Option, true, none, some, List, [], ◌∷◌, ◌++◌, append-nil,
  append_assoc, map, Bytes, bytes_eq, bytes_eq_iff, Bool-cases, inl, inr, arith,
}
use asyn_log_system_cloud_st.Base.Maps.{lookup, assign, IsMap, Absent}
use asyn_log_system_cloud_st.Store.Platform.{Json, Paths, Config}
use asyn_log_system_cloud_st.Store.Info.{StorageInfo, to_json}
use asyn_log_system_cloud_st.Store.Info.RoundTrip.{IsJson, IsSaved, parse_storage_info-to_json}
use asyn_log_system_cloud_st.Store.Manager.{
  Table, DataManager, append_all, get_all, body_of, load_all, init_load,
}
use asyn_log_system_cloud_st.Store.Manager.Loading.{Entries}
use asyn_log_system_cloud_st.Store.Manager.History.{Reach, Reach-IsConsistent}

-- The file as InitLoad finds it: a file that is there can be read.
abbrev pub readable : Option Bytes → Option (Option Bytes)
readable none = none
readable (some body) = some (some body)

Absent-behind :
    (u k : Bytes) (info : StorageInfo) (front back : Table)
    → Absent u (front ++ (k, info) ∷ back)
    → k ≢ u
Absent-behind u k info [] back a = a.0
Absent-behind u k info ((v, i) ∷ front) back a = Absent-behind u k info front back a.1

-- In a map an entry behind others has a key that is none of theirs.
behind_lem :
    (k : Bytes) (info : StorageInfo) (front back : Table)
    → IsMap (front ++ (k, info) ∷ back)
    → lookup k front ≡ none
unfolding lookup
behind_lem k info [] back m = refl
behind_lem k info ((u, i) ∷ front) back m = elim (Bool-cases (bytes_eq u k)) [
  | inl hit ↦ absurd (Absent-behind u k info front back m.0 (sym ((bytes_eq_iff u k).0 hit)))
  | inr miss ↦ rw miss (behind_lem k info front back m.1)
]

assign_new :
    (k : Bytes) (info : StorageInfo) (table : Table)
    → lookup k table ≡ none
    → assign k info table ≡ table ++ (k, info) ∷ []
unfolding lookup assign
assign_new k info [] e = refl
assign_new k info ((u, i) ∷ table) e = elim (Bool-cases (bytes_eq u k)) [
  | inl hit ↦ absurd (ground (arith, e, hit))
  | inr miss ↦
      let rest : lookup k table ≡ none = ground (arith, e, miss) in
      rw miss (ap (λ t. (u, i) ∷ t) (assign_new k info table rest))
]

module _ (j : Json) (laws : IsJson j) where
  array_lem :
      (items : List StorageInfo) (root : j.Value)
      → j.is_array root ≡ true
      → j.is_array (append_all j root items) ≡ true
  unfolding append_all
  array_lem [] root a = a
  array_lem (info ∷ items) root a =
      array_lem items (j.append root (to_json j info)) (laws.array_append root (to_json j info) a)

  elements_lem :
      (items : List StorageInfo) (root : j.Value)
      → j.is_array root ≡ true
      → j.elements (append_all j root items) ≡ j.elements root ++ map (to_json j) items
  unfolding append_all
  elements_lem [] root a = sym (append-nil (j.elements root))
  elements_lem (info ∷ items) root a =
      elements_lem items (j.append root (to_json j info))
        (laws.array_append root (to_json j info) a)
      ∙ (ap (λ x. x ++ map (to_json j) items) (laws.elements_append root (to_json j info) a)
          ∙ append_assoc (j.elements root) (to_json j info ∷ []) (map (to_json j) items))

  module _ (paths : Paths) (config : Config) where
    load_step :
        (info : StorageInfo) (vs : List j.Value) (loaded : Table)
        → IsSaved j paths config info
        → lookup info.url loaded ≡ none
        → load_all j paths config (to_json j info ∷ vs) loaded
          ≡ load_all j paths config vs (assign info.url info loaded)
    unfolding load_all
    load_step info vs loaded saved n =
        let parsed = parse_storage_info-to_json j laws info paths config saved in
        ground (arith, parsed, n)

    load_all_lem :
        (loaded rest : Table)
        → IsMap (loaded ++ rest)
        → Entries (IsSaved j paths config) rest
        → load_all j paths config (map (to_json j) (get_all rest)) loaded ≡ some (loaded ++ rest)
    unfolding load_all get_all
    load_all_lem loaded [] m h = ap some (sym (append-nil loaded))
    load_all_lem loaded ((url, info) ∷ rest) m h =
        let absent = behind_lem url info loaded rest m in
        let own : lookup info.url loaded ≡ none =
          subst (λ k. lookup k loaded ≡ none) h.0.0 absent in
        let placed : assign info.url info loaded ≡ loaded ++ (url, info) ∷ [] =
          subst (λ k. assign k info loaded ≡ loaded ++ (url, info) ∷ []) h.0.0
            (assign_new url info loaded absent) in
        let shape = append_assoc loaded ((url, info) ∷ []) rest in
        load_step info (map (to_json j) (get_all rest)) loaded h.0.1 own
        ∙ (ap (load_all j paths config (map (to_json j) (get_all rest))) placed
            ∙ (load_all_lem (loaded ++ (url, info) ∷ []) rest (subst IsMap (sym shape) m) h.1
                ∙ ap some shape))

    -- What InitLoad makes of a body that is the table's.
    init_load_lem :
        (table : Table) (body : Bytes)
        → IsMap table
        → Entries (IsSaved j paths config) table
        → j.unserialize body ≡ some (append_all j j.array_value (get_all table))
        → init_load j paths config (some (some body)) ≡ some table
    unfolding init_load
    init_load_lem table body m h e =
        let root = append_all j j.array_value (get_all table) in
        let items : j.elements root ≡ map (to_json j) (get_all table) =
          elements_lem (get_all table) j.array_value laws.array_empty
          ∙ ap (λ x. x ++ map (to_json j) (get_all table)) laws.elements_empty in
        let loaded = ap (λ vs. load_all j paths config vs []) items ∙ load_all_lem [] table m h in
        let array = array_lem (get_all table) j.array_value laws.array_empty in
        ground (arith, e, loaded, array, laws.array_not_null root array)

    -- A server that starts with an empty table and no metadata file, and a restart after any
    -- sequence of Insert and Delete calls, whatever failed on the way: InitLoad then reads exactly
    -- the table that was in memory. The entries inserted are ones that reading accepts, temporary
    -- paths are fresh, JsonCpp's objects and arrays behave as documented, and it can write the
    -- table and reads back what it wrote.
    pub Reach-init_load :
        (start m : DataManager) (body : Bytes)
        → start.table ≡ []
        → lookup config.storage_info_file start.files ≡ none
        → Reach j config (IsSaved j paths config) start m
        → body_of j m.table ≡ some body
        → j.unserialize body ≡ some (append_all j j.array_value (get_all m.table))
        → init_load j paths config (readable (lookup config.storage_info_file m.files))
          ≡ some m.table
    unfolding init_load
    Reach-init_load start m body empty missing reach written back =
        let v =
          Reach-IsConsistent j config (IsSaved j paths config) start m (subst IsMap (sym empty) tt)
            (subst (Entries (IsSaved j paths config)) (sym empty) tt) reach in
        elim v.synced [
          | inl s ↦
              ap (λ f. init_load j paths config (readable f)) (s ∙ written)
              ∙ init_load_lem m.table body v.is_map v.entries back
          | inr (t, s) ↦
              ap (λ f. init_load j paths config (readable f)) (s ∙ missing)
              ∙ ap some (sym (t ∙ empty))
        ]
