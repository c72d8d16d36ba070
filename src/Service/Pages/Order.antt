-- ===== src/Service/Pages/Order.antt =====
-- src/server/Service.cpp, ListFiles: the page does not depend on the order in which the table of
-- the metadata, an unordered map, is iterated.
use asyn_log_system_cloud_st.Base.{
  ◌≡◌, ◌≢◌, ◌⊎◌, refl, sym, ap, ◌∙◌, true, false, Option, none, some, List, [], ◌∷◌, ◌++◌, Bytes,
  codes, All, Bool-cases, inl, inr, arith,
}
use asyn_log_system_cloud_st.Base.Maps.{Absent, IsMap}
use asyn_log_system_cloud_st.Store.Manager.Loading.{Entries}
use asyn_log_system_cloud_st.Store.Info.{StorageInfo}
use asyn_log_system_cloud_st.Store.Manager.{Table, get_all}
use asyn_log_system_cloud_st.Service.Platform.{System}
use asyn_log_system_cloud_st.Service.Text.{replace_once}
use asyn_log_system_cloud_st.Service.Reply.{Headers, internal_error, set_no_cache, send_text}
use asyn_log_system_cloud_st.Service.Pages.{
  text_less, insert_by_name, sort_by_name, generate_file_list, send_page, list_files,
}

-- Two orders of the entries of one table.
pub data Reorders : Table → Table → Type 0 where
  same_order : {t : Table} → Reorders t t
  keep : {t u : Table} (e : Bytes × StorageInfo) → Reorders t u → Reorders (e ∷ t) (e ∷ u)
  swap : {t : Table} (d e : Bytes × StorageInfo) → Reorders (d ∷ e ∷ t) (e ∷ d ∷ t)
  both : {t u v : Table} → Reorders t u → Reorders u v → Reorders t v

text_less_trans :
    (a b c : Bytes) → text_less a b ≡ true → text_less b c ≡ true → text_less a c ≡ true
unfolding text_less
text_less_trans a b [] h k = absurd cc
text_less_trans a [] (z ∷ c) h k = absurd cc
text_less_trans [] (y ∷ b) (z ∷ c) h k = refl
text_less_trans (x ∷ a) (y ∷ b) (z ∷ c) h k = ground (arith, text_less_trans a b c)

-- Of two different names exactly one is less.
text_less_cases :
    (a b : Bytes)
    → a ≢ b
    → ((text_less a b ≡ true) × (text_less b a ≡ false))
      ⊎ ((text_less b a ≡ true) × (text_less a b ≡ false))
unfolding text_less
text_less_cases [] [] n = absurd (n refl)
text_less_cases [] (y ∷ b) n = inl (refl, refl)
text_less_cases (x ∷ a) [] n = inr (refl, refl)
text_less_cases (x ∷ a) (y ∷ b) n = ground (arith, text_less_cases a b, differ)
  where
    differ : x ≡ y → a ≢ b
    differ e f = n cc

module _ (sys : System) where
  abbrev pub name_of : StorageInfo → Bytes
  name_of info = sys.paths.filename info.storage_path

  insert_front :
      (info other : StorageInfo) (files : List StorageInfo)
      → text_less (name_of info) (name_of other) ≡ true
      → insert_by_name sys info (other ∷ files) ≡ info ∷ other ∷ files
  unfolding insert_by_name
  insert_front info other files h = ground (arith, h)

  insert_behind :
      (info other : StorageInfo) (files : List StorageInfo)
      → text_less (name_of info) (name_of other) ≡ false
      → insert_by_name sys info (other ∷ files) ≡ other ∷ insert_by_name sys info files
  unfolding insert_by_name
  insert_behind info other files h = ground (arith, h)

  not_less : (a b c : Bytes) → text_less b c ≡ true → text_less a c ≡ false → text_less a b ≡ false
  not_less a b c h k = elim (Bool-cases (text_less a b)) [
    | inl t ↦ absurd (ground (arith, text_less_trans a b c t h))
    | inr f ↦ f
  ]

  -- Two files whose names differ may be inserted in either order; the first with the lesser name.
  insert_ordered :
      (a b : StorageInfo) (files : List StorageInfo)
      → text_less (name_of a) (name_of b) ≡ true
      → text_less (name_of b) (name_of a) ≡ false
      → insert_by_name sys a (insert_by_name sys b files)
        ≡ insert_by_name sys b (insert_by_name sys a files)
  unfolding insert_by_name
  insert_ordered a b [] h k = insert_front a b [] h ∙ sym (insert_behind b a [] k)
  insert_ordered a b (o ∷ files) h k = elim (Bool-cases (text_less (name_of b) (name_of o))) [
    | inl b_less ↦
        let a_less = text_less_trans (name_of a) (name_of b) (name_of o) h b_less in
        ap (insert_by_name sys a) (insert_front b o files b_less)
        ∙ (insert_front a b (o ∷ files) h
            ∙ sym (
                ap (insert_by_name sys b) (insert_front a o files a_less)
                ∙ (insert_behind b a (o ∷ files) k
                    ∙ ap (λ x. a ∷ x) (insert_front b o files b_less))))
    | inr b_more ↦ elim (Bool-cases (text_less (name_of a) (name_of o))) [
      | inl a_less ↦
          ap (insert_by_name sys a) (insert_behind b o files b_more)
          ∙ (insert_front a o (insert_by_name sys b files) a_less
              ∙ sym (
                  ap (insert_by_name sys b) (insert_front a o files a_less)
                  ∙ (insert_behind b a (o ∷ files) k
                      ∙ ap (λ x. a ∷ x) (insert_behind b o files b_more))))
      | inr a_more ↦
          ap (insert_by_name sys a) (insert_behind b o files b_more)
          ∙ (insert_behind a o (insert_by_name sys b files) a_more
              ∙ (ap (λ x. o ∷ x) (insert_ordered a b files h k)
                  ∙ sym (
                      ap (insert_by_name sys b) (insert_behind a o files a_more)
                      ∙ insert_behind b o (insert_by_name sys a files) b_more)))
    ]
  ]

  insert_comm :
      (a b : StorageInfo) (files : List StorageInfo)
      → name_of a ≢ name_of b
      → insert_by_name sys a (insert_by_name sys b files)
        ≡ insert_by_name sys b (insert_by_name sys a files)
  insert_comm a b files n = elim (text_less_cases (name_of a) (name_of b) n) [
    | inl (h, k) ↦ insert_ordered a b files h k
    | inr (h, k) ↦ sym (insert_ordered b a files h k)
  ]

  -- No two files have the same name.
  abbrev pub HasOwnNames : Table → Type 0
  HasOwnNames [] = Unit {0}
  HasOwnNames (e ∷ table) = All (λ d. name_of d.1 ≢ name_of e.1) table × HasOwnNames table

  Reorders-All : (P : Bytes × StorageInfo → Type 0) {t u : Table} → Reorders t u → All P t → All P u
  Reorders-All P same_order h = h
  Reorders-All P (keep e r) h = (h.0, Reorders-All P r h.1)
  Reorders-All P (swap d e) h = (h.1.0, (h.0, h.1.1))
  Reorders-All P (both r s) h = Reorders-All P s (Reorders-All P r h)

  Reorders-HasOwnNames : {t u : Table} → Reorders t u → HasOwnNames t → HasOwnNames u
  Reorders-HasOwnNames same_order h = h
  Reorders-HasOwnNames (keep e r) h = (Reorders-All _ r h.0, Reorders-HasOwnNames r h.1)
  Reorders-HasOwnNames (swap d e) h = ((λ f. h.0.0 (sym f), h.1.0), (h.0.1, h.1.1))
  Reorders-HasOwnNames (both r s) h = Reorders-HasOwnNames s (Reorders-HasOwnNames r h)

  sort-Reorders :
      {t u : Table}
      → Reorders t u
      → HasOwnNames t
      → sort_by_name sys (get_all t) ≡ sort_by_name sys (get_all u)
  unfolding sort_by_name get_all
  sort-Reorders same_order h = refl
  sort-Reorders (keep e r) h = ap (insert_by_name sys e.1) (sort-Reorders r h.1)
  sort-Reorders (swap {t = t} d e) h =
      insert_comm d.1 e.1 (sort_by_name sys (get_all t)) (λ f. h.0.0 (sym f))
  sort-Reorders (both r s) h = sort-Reorders r h ∙ sort-Reorders s (Reorders-HasOwnNames r h)

  -- The URL of a file is the prefix and its name.
  abbrev pub IsNamed : Bytes → StorageInfo → Type 0
  IsNamed prefix info = info.url ≡ prefix ++ name_of info

  Absent-names :
      (prefix url : Bytes) (info : StorageInfo) (table : Table)
      → url ≡ info.url
      → IsNamed prefix info
      → Entries (IsNamed prefix) table
      → Absent url table
      → All (λ d. name_of d.1 ≢ name_of info) table
  Absent-names prefix url info [] own named h a = tt
  Absent-names prefix url info ((u, i) ∷ table) own named h a = (
    λ same. a.0 (h.0.0 ∙ (h.0.1 ∙ (ap (λ n. prefix ++ n) same ∙ (sym named ∙ sym own)))),
    Absent-names prefix url info table own named h.1 a.1,
  )

  IsMap-HasOwnNames :
      (prefix : Bytes) (table : Table)
      → IsMap table
      → Entries (IsNamed prefix) table
      → HasOwnNames table
  IsMap-HasOwnNames prefix [] m h = tt
  IsMap-HasOwnNames prefix ((url, info) ∷ table) m h = (
    Absent-names prefix url info table h.0.0 h.0.1 h.1 m.0,
    IsMap-HasOwnNames prefix table m.1 h.1,
  )

  list_files-same_files :
      (template : Option Bytes) (headers : Headers) (t u : Table)
      → sort_by_name sys (get_all t) ≡ sort_by_name sys (get_all u)
      → list_files sys template t headers ≡ list_files sys template u headers
  unfolding list_files
  list_files-same_files none headers t u e = refl
  list_files-same_files (some text) headers t u e =
      ap
        (λ files. elim (replace_once text (codes "{{FILE_LIST}}") (generate_file_list sys files)) [
          | none ↦
              send_text (set_no_cache headers) (internal_error (codes "index template is invalid"))
          | some content ↦ send_page (set_no_cache headers) content
        ])
        e

  -- For a table with at most one entry for a URL, each stored under its URL, which is a prefix and
  -- the name of the file, the page is the same in whatever order the entries are iterated.
  pub list_files-Reorders :
      (template : Option Bytes) (headers : Headers) (prefix : Bytes) {t u : Table}
      → IsMap t
      → Entries (IsNamed prefix) t
      → Reorders t u
      → list_files sys template t headers ≡ list_files sys template u headers
  list_files-Reorders template headers prefix {t} {u} m h r =
      list_files-same_files template headers t u (sort-Reorders r (IsMap-HasOwnNames prefix t m h))
