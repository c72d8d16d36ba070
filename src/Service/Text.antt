-- ===== src/Service/Text.antt =====
-- src/server/Service.cpp: the helpers on texts, for file names, pages and paths.
pub mod Escape
use asyn_log_system_cloud_st.Base.{
  ℕ, Bool, true, false, not, ◌&&◌, ◌||◌, Option, none, some, [], ◌∷◌, ◌++◌, Bytes, bytes_eq, codes,
  length, take, drop, is_empty, ltb, leb, ◌==◌, if◌then◌else◌,
}

-- `ch == '/' || ch == '\\' || ch == 0 || ch < 0x20 || ch == 0x7f`.
unfoldable pub is_unsafe : ℕ → Bool
is_unsafe ch = (ch == b'/') || ((ch == 92) || ((ch == 0) || (ltb ch 32 || (ch == 127))))

-- The loop of IsSafeFileName.
unfoldable pub all_safe : Bytes → Bool
unfolding is_unsafe
all_safe [] = true
all_safe (ch ∷ text) = let rest = all_safe text in if is_unsafe ch then false else rest

unfoldable pub is_safe_file_name : Bytes → Bool
unfolding all_safe
is_safe_file_name filename =
    if is_empty filename
      || (ltb 255 (length filename)
          || (bytes_eq filename (codes ".") || bytes_eq filename (codes "..")))
    then false
    else all_safe filename

-- The five cases of the switch, and the default.
unfoldable pub escape_byte : ℕ → Bytes
escape_byte ch =
    if ch == b'&'
    then codes "&amp;"
    else if ch == b'<'
    then codes "&lt;"
    else if ch == b'>'
    then codes "&gt;"
    else if ch == 34
    then codes "&quot;"
    else if ch == 39
    then codes "&#39;"
    else ch ∷ []

unfoldable pub html_escape : Bytes → Bytes
unfolding escape_byte
html_escape [] = []
html_escape (ch ∷ text) = escape_byte ch ++ html_escape text

-- `text->find(placeholder)` and `replace` at the place that was found.
unfoldable pub replace_first : Bytes → Bytes → Bytes → Option Bytes
replace_first placeholder replacement [] = if is_empty placeholder then some replacement else none
replace_first placeholder replacement (ch ∷ text) =
    let rest = replace_first placeholder replacement text in
    if bytes_eq (take (length placeholder) (ch ∷ text)) placeholder
    then some (replacement ++ drop (length placeholder) (ch ∷ text))
    else elim rest [ none ↦ none | some t ↦ some (ch ∷ t) ]

-- `none` is the result false.
unfoldable pub replace_once : Bytes → Bytes → Bytes → Option Bytes
unfolding replace_first
replace_once text placeholder replacement = replace_first placeholder replacement text

unfoldable pub is_download_path : Bytes → Bytes → Bool
is_download_path prefix path =
    ltb (length prefix) (length path) && bytes_eq (take (length prefix) path) prefix
