-- ===== src/Auth/Cookie.antt =====
-- src/server/Service.cpp, Trim and GetCookie. The `Cookie` header is what evhttp_find_header
-- returns, `none` for a null pointer.
pub mod RoundTrip
use asyn_log_system_cloud_st.Base.{
  ℕ, zero, suc, ◌+◌, Bool, true, false, ◌&&◌, ◌||◌, Option, none, some, [], ◌∷◌, ◌++◌, Bytes, find,
  bytes_eq, length, take, drop, ◌==◌, if◌then◌else◌,
}

abbrev pub is_blank : ℕ → Bool
is_blank c = (c == b' ') || (c == 9)

-- From `find_first_not_of(" \t")` on.
unfoldable pub skip_blanks : Bytes → Bytes
skip_blanks [] = []
skip_blanks (c ∷ cs) = if is_blank c then skip_blanks cs else c ∷ cs

-- Up to `find_last_not_of(" \t")`.
unfoldable pub cut_blanks : Bytes → Bytes
cut_blanks [] = []
cut_blanks (c ∷ cs) =
    let rest = cut_blanks cs in
    elim rest [ [] ↦ if is_blank c then [] else c ∷ [] | d ∷ ds ↦ c ∷ d ∷ ds ]

unfoldable pub trim : Bytes → Bytes
unfolding skip_blanks cut_blanks
trim input = cut_blanks (skip_blanks input)

-- What one item of the header gives: its value, if the item is for `name`.
unfoldable pub cookie_item : Bytes → Bytes → Option Bytes
cookie_item name text =
    let item = trim text in
    elim (find b'=' item) [
      | none ↦ none
      | some separator ↦
          if bytes_eq (trim (take separator item)) name
          then some (drop (suc separator) item)
          else none
    ]

-- The loop, with `cookies.substr(position)` as the text. A round moves `position` behind the next
-- semicolon, so one round for each byte and one more are enough.
unfoldable pub cookie_loop : ℕ → Bytes → Bytes → Option Bytes
cookie_loop zero name text = none
cookie_loop (suc fuel) name text = elim (find b';' text) [
  | none ↦ cookie_item name text
  | some end_ ↦ elim (cookie_item name (take end_ text)) [
    | some value ↦ some value
    | none ↦ cookie_loop fuel name (drop (suc end_) text)
  ]
]

unfoldable pub get_cookie : Option Bytes → Bytes → Option Bytes
get_cookie none name = none
get_cookie (some cookies) name = cookie_loop (suc (length cookies)) name cookies
