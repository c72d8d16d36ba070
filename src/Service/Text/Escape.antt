-- ===== src/Service/Text/Escape.antt =====
-- src/server/Service.cpp, HtmlEscape and IsSafeFileName: what their results contain.
use asyn_log_system_cloud_st.Base.{
  ℕ, ◌≡◌, ◌≢◌, arith, true, [], ◌∷◌, Bytes, bytes_eq_iff, length, ◌≤◌, ◌<◌, codes, All, All-append,
}
use asyn_log_system_cloud_st.Service.Text.{
  is_safe_file_name, all_safe, is_unsafe, escape_byte, html_escape,
}

-- A byte that neither opens a tag nor ends a quoted attribute.
abbrev pub IsInert : ℕ → Type 0
IsInert c = (c ≢ b'<') × (c ≢ b'>') × (c ≢ 34) × (c ≢ 39)

escape_byte-IsInert : (ch : ℕ) → All IsInert (escape_byte ch)
unfolding escape_byte
escape_byte-IsInert ch = ground arith

-- No text that was escaped has an angle bracket or a quote, so in a page it can neither open a tag
-- nor leave an attribute.
pub html_escape-IsInert : (text : Bytes) → All IsInert (html_escape text)
unfolding html_escape
html_escape-IsInert [] = tt
html_escape-IsInert (ch ∷ text) =
    All-append IsInert (escape_byte ch) (html_escape text) (escape_byte-IsInert ch)
      (html_escape-IsInert text)

-- A byte that may stand in a file name: no separator, no control character.
abbrev pub IsNameByte : ℕ → Type 0
IsNameByte c = (c ≢ b'/') × (c ≢ 92) × (32 ≤ c) × (c ≢ 127)

all_safe-IsNameByte : (text : Bytes) → all_safe text ≡ true → All IsNameByte text
unfolding all_safe is_unsafe
all_safe-IsNameByte [] h = tt
all_safe-IsNameByte (ch ∷ text) h = ground (arith, all_safe-IsNameByte text)

-- A name that is accepted has from 1 to 255 bytes, is neither . nor .., and has no slash, no
-- backslash and no control character, so it names a file directly in its directory.
pub is_safe_file_name-IsNameByte :
    (filename : Bytes)
    → is_safe_file_name filename ≡ true
    → (0 < length filename)
      × (length filename ≤ 255)
      × (filename ≢ codes ".")
      × (filename ≢ codes "..")
      × All IsNameByte filename
unfolding is_safe_file_name
is_safe_file_name-IsNameByte [] h = cc
is_safe_file_name-IsNameByte (ch ∷ text) h = ground (
  arith,
  bytes_eq_iff (ch ∷ text) (codes "."),
  bytes_eq_iff (ch ∷ text) (codes ".."),
  all_safe-IsNameByte (ch ∷ text),
)
