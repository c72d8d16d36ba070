-- ===== src/Examples/Documents.antt =====
-- A small instance of Store.Platform's JSON, with a text for each document that is read back.
use asyn_log_system_cloud_st.Base.{
  ℕ, zero, suc, ◌≡◌, refl, ap, bytes_eq_refl, true, false, ◌||◌, Bool, Option, none, some, List, [],
  ◌∷◌, ◌++◌, Bytes, bytes_eq, if◌then◌else◌, length, take, drop, ltb, ◌==◌, arith,
}
use asyn_log_system_cloud_st.Base.Integers.{ℤ, pos, negsuc, is_negative}
use asyn_log_system_cloud_st.Store.Platform.{Json}
use asyn_log_system_cloud_st.Store.Info.RoundTrip.{IsJson, IsSettable}

pub data Document : Type 0 where
  null_d array_d : Document
  append_d : Document → Document → Document
  set_d : Document → Bytes → Document → Document
  int_d : ℤ → Document
  uint_d : ℕ → Document
  text_d : Bytes → Document

abbrev is_null_d : Document → Bool
is_null_d null_d = true
is_null_d array_d = false
is_null_d (append_d v x) = false
is_null_d (set_d v k x) = false
is_null_d (int_d n) = false
is_null_d (uint_d n) = false
is_null_d (text_d s) = false

-- A member of null makes it an object, and an element makes it an array.
abbrev is_object_d : Document → Bool
is_object_d null_d = false
is_object_d array_d = false
is_object_d (append_d v x) = false
is_object_d (set_d v k x) = is_null_d v || is_object_d v
is_object_d (int_d n) = false
is_object_d (uint_d n) = false
is_object_d (text_d s) = false

abbrev is_array_d : Document → Bool
is_array_d null_d = false
is_array_d array_d = true
is_array_d (append_d v x) = is_null_d v || is_array_d v
is_array_d (set_d v k x) = false
is_array_d (int_d n) = false
is_array_d (uint_d n) = false
is_array_d (text_d s) = false

abbrev items_of : Document → List Document
items_of null_d = []
items_of array_d = []
items_of (append_d v x) = items_of v ++ x ∷ []
items_of (set_d v k x) = []
items_of (int_d n) = []
items_of (uint_d n) = []
items_of (text_d s) = []

abbrev member_of : Document → Bytes → Document
member_of null_d l = null_d
member_of array_d l = null_d
member_of (append_d v x) l = null_d
member_of (set_d v k x) l = if bytes_eq k l then x else member_of v l
member_of (int_d n) l = null_d
member_of (uint_d n) l = null_d
member_of (text_d s) l = null_d

abbrev has_member : Document → Bytes → Bool
has_member null_d l = false
has_member array_d l = false
has_member (append_d v x) l = false
has_member (set_d v k x) l = bytes_eq k l || has_member v l
has_member (int_d n) l = false
has_member (uint_d n) l = false
has_member (text_d s) l = false

abbrev is_text : Document → Bool
is_text null_d = false
is_text array_d = false
is_text (append_d v x) = false
is_text (set_d v k x) = false
is_text (int_d n) = false
is_text (uint_d n) = false
is_text (text_d s) = true

abbrev is_signed : Document → Bool
is_signed null_d = false
is_signed array_d = false
is_signed (append_d v x) = false
is_signed (set_d v k x) = false
is_signed (int_d n) = true
is_signed (uint_d n) = ltb n 9223372036854775808
is_signed (text_d s) = false

abbrev is_unsigned : Document → Bool
is_unsigned null_d = false
is_unsigned array_d = false
is_unsigned (append_d v x) = false
is_unsigned (set_d v k x) = false
is_unsigned (int_d (pos n)) = true
is_unsigned (int_d (negsuc n)) = false
is_unsigned (uint_d n) = true
is_unsigned (text_d s) = false

abbrev int_of : Document → ℤ
int_of null_d = pos 0
int_of array_d = pos 0
int_of (append_d v x) = pos 0
int_of (set_d v k x) = pos 0
int_of (int_d n) = n
int_of (uint_d n) = pos n
int_of (text_d s) = pos 0

abbrev uint_of : Document → ℕ
uint_of null_d = 0
uint_of array_d = 0
uint_of (append_d v x) = 0
uint_of (set_d v k x) = 0
uint_of (int_d (pos n)) = n
uint_of (int_d (negsuc n)) = 0
uint_of (uint_d n) = n
uint_of (text_d s) = 0

abbrev string_of : Document → Bytes
string_of null_d = []
string_of array_d = []
string_of (append_d v x) = []
string_of (set_d v k x) = []
string_of (int_d n) = []
string_of (uint_d n) = []
string_of (text_d s) = s

abbrev text_of_d : Document → Option Bytes
text_of_d null_d = none
text_of_d array_d = none
text_of_d (append_d v x) = none
text_of_d (set_d v k x) = none
text_of_d (int_d n) = none
text_of_d (uint_d n) = none
text_of_d (text_d s) = some s

-- A tag for the kind, and behind it the numbers, the texts with their length, and the parts.
unfoldable pub encode : Document → Bytes
encode null_d = 0 ∷ []
encode array_d = 1 ∷ []
encode (append_d v x) = 2 ∷ (encode v ++ encode x)
encode (set_d v k x) = 3 ∷ length k ∷ (k ++ (encode v ++ encode x))
encode (int_d (pos n)) = 4 ∷ n ∷ []
encode (int_d (negsuc n)) = 5 ∷ n ∷ []
encode (uint_d n) = 6 ∷ n ∷ []
encode (text_d s) = 7 ∷ length s ∷ s

-- A text with its length in front of it.
unfoldable pub cut : Bytes → Bytes × Bytes
cut [] = ([], [])
cut (n ∷ xs) = (take n xs, drop n xs)

unfoldable pub decode_atom : ℕ → Bytes → Option (Document × Bytes)
unfolding cut
decode_atom tag [] =
    if tag == 0 then some (null_d, []) else if tag == 1 then some (array_d, []) else none
decode_atom tag (n ∷ rest) =
    if tag == 0
    then some (null_d, n ∷ rest)
    else if tag == 1
    then some (array_d, n ∷ rest)
    else if tag == 4
    then some (int_d (pos n), rest)
    else if tag == 5
    then some (int_d (negsuc n), rest)
    else if tag == 6
    then some (uint_d n, rest)
    else if tag == 7
    then some (text_d (cut (n ∷ rest)).0, (cut (n ∷ rest)).1)
    else none

unfoldable pub decode : ℕ → Bytes → Option (Document × Bytes)
unfolding decode_atom cut
decode zero bytes = none
decode (suc fuel) [] = none
decode (suc fuel) (tag ∷ rest) = elim (tag == 2) [
  | true ↦ elim (decode fuel rest) [
    | none ↦ none
    | some (v, more) ↦ elim (decode fuel more) [
      | none ↦ none
      | some (x, left) ↦ some (append_d v x, left)
    ]
  ]
  | false ↦ elim (tag == 3) [
    | true ↦ elim (decode fuel (cut rest).1) [
      | none ↦ none
      | some (v, more) ↦ elim (decode fuel more) [
        | none ↦ none
        | some (x, left) ↦ some (set_d v (cut rest).0 x, left)
      ]
    ]
    | false ↦ decode_atom tag rest
  ]
]

unfoldable pub decode_all : Bytes → Option Document
unfolding decode
decode_all bytes = elim (decode (length bytes) bytes) [
  | none ↦ none
  | some (d, []) ↦ some d
  | some (d, b ∷ bs) ↦ none
]

abbrev pub documents : Json
documents = record {
  Value = Document;
  null_value = null_d;
  array_value = array_d;
  of_int64 = int_d;
  of_uint64 = uint_d;
  of_string = text_d;
  set = set_d;
  append = append_d;
  get = member_of;
  elements = items_of;
  is_null = is_null_d;
  is_array = is_array_d;
  is_object = is_object_d;
  is_member = has_member;
  is_string = is_text;
  is_int64 = is_signed;
  is_uint64 = is_unsigned;
  is_uint = is_unsigned;
  is_int = is_signed;
  is_bool = λ v. false;
  as_string = string_of;
  as_int64 = int_of;
  as_uint64 = uint_of;
  as_uint = uint_of;
  as_int = int_of;
  as_bool = λ v. false;
  text_of = text_of_d;
  serialize = λ v. some (encode v);
  unserialize = decode_all;
}

settable_lem : (v : Document) → IsSettable documents v → is_null_d v || is_object_d v ≡ true
settable_lem v s = ground arith

array_not_null : (v : Document) → is_array_d v ≡ true → is_null_d v ≡ false
array_not_null null_d a = ground arith
array_not_null array_d a = refl
array_not_null (append_d v x) a = refl
array_not_null (set_d v k x) a = refl
array_not_null (int_d n) a = refl
array_not_null (uint_d n) a = refl
array_not_null (text_d s) a = refl

pub documents-IsJson : IsJson documents
unfolding is_negative
documents-IsJson = record {
  null_null = refl;
  get_set = λ v x k s. ap (λ c. if c then x else member_of v k) (bytes_eq_refl k);
  get_set_other = λ v x k l s h. ap (λ c. if c then x else member_of v l) h;
  object_set = λ v x k s. settable_lem v s;
  member_set = λ v x k s. ap (λ c. c || has_member v k) (bytes_eq_refl k);
  is_string_of = λ s. refl;
  as_string_of = λ s. refl;
  is_int64_of = λ n h. refl;
  as_int64_of = λ n h. refl;
  is_uint64_of = λ n u. refl;
  as_uint64_of = λ n u. refl;
  uint_as_int = λ n u h. refl;
  array_empty = refl;
  elements_empty = refl;
  array_append = λ v x a. ground arith;
  elements_append = λ v x a. refl;
  array_not_null = array_not_null;
}
