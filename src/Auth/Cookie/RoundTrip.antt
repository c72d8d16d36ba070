-- ===== src/Auth/Cookie/RoundTrip.antt =====
-- src/server/Service.cpp, GetCookie: reading a header that lists cookies as a browser writes them.
use asyn_log_system_cloud_st.Base.{
  ℕ, zero, suc, ◌+◌, ◌<◌, ◌≡◌, ◌≢◌, refl, Bool, true, false, none, some, List, [], ◌∷◌, ◌++◌, Bytes,
  find, Lacks, find-Lacks, find-append, find-some, length-drop, bytes_eq, length, length-append,
  drop, take-append, drop-append, append-nil, All, All-append, if◌then◌else◌, arith, Option-cases,
  inl, inr,
}
use asyn_log_system_cloud_st.Base.Maps.{lookup}
use asyn_log_system_cloud_st.Auth.Cookie.{
  is_blank, skip_blanks, cut_blanks, trim, cookie_item, cookie_loop, get_cookie,
}

-- A byte that may stand in a cookie's name or value: none of `;`, `=`, the space and the tab.
abbrev pub IsCookieByte : ℕ → Type 0
IsCookieByte c = (c ≢ b';') × (c ≢ b'=') × (c ≢ b' ') × (c ≢ 9)

-- `name=value`, and the items of a header with `; ` between them.
abbrev pub item_of : Bytes × Bytes → Bytes
item_of (name, value) = name ++ b'=' ∷ value

abbrev pub header_of : List (Bytes × Bytes) → Bytes
header_of [] = []
header_of (c ∷ []) = item_of c
header_of (c ∷ d ∷ ds) = item_of c ++ b';' ∷ b' ' ∷ header_of (d ∷ ds)

abbrev pub AreCookies : List (Bytes × Bytes) → Type 0
AreCookies = All (λ c. All IsCookieByte c.0 × All IsCookieByte c.1)

abbrev NoBlank : Bytes → Type 0
NoBlank = All (λ c. is_blank c ≡ false)

skip_blanks_lem : (xs : Bytes) → NoBlank xs → skip_blanks xs ≡ xs
unfolding skip_blanks
skip_blanks_lem [] h = refl
skip_blanks_lem (c ∷ cs) h = rw h.0

cut_blanks_lem : (xs : Bytes) → NoBlank xs → cut_blanks xs ≡ xs
unfolding cut_blanks
cut_blanks_lem [] h = refl
cut_blanks_lem (c ∷ cs) h = ground (arith, cut_blanks_lem cs h.1)

trim_lem : (xs : Bytes) → NoBlank xs → trim xs ≡ xs
unfolding trim
trim_lem xs h = ground (arith, skip_blanks_lem xs h, cut_blanks_lem xs h)

trim_space : (xs : Bytes) → NoBlank xs → trim (b' ' ∷ xs) ≡ xs
unfolding trim
trim_space xs h = trim_lem xs h

spaced : Bool → Bytes → Bytes
spaced true xs = b' ' ∷ xs
spaced false xs = xs

trim-spaced : (pad : Bool) (xs : Bytes) → NoBlank xs → trim (spaced pad xs) ≡ xs
unfolding spaced
trim-spaced true xs h = trim_space xs h
trim-spaced false xs h = trim_lem xs h

spaced-append : (pad : Bool) (xs ys : Bytes) → spaced pad (xs ++ ys) ≡ spaced pad xs ++ ys
unfolding spaced
spaced-append true xs ys = refl
spaced-append false xs ys = refl

spaced-Lacks : (pad : Bool) (xs : Bytes) → Lacks b';' xs → Lacks b';' (spaced pad xs)
unfolding spaced
spaced-Lacks true xs h = (omega arith, h)
spaced-Lacks false xs h = h

Cookie-NoBlank : (xs : Bytes) → All IsCookieByte xs → NoBlank xs
Cookie-NoBlank [] h = tt
Cookie-NoBlank (c ∷ cs) h = (ground arith, Cookie-NoBlank cs h.1)

Cookie-Lacks : (xs : Bytes) → All IsCookieByte xs → Lacks b';' xs × Lacks b'=' xs
Cookie-Lacks [] h = (tt, tt)
Cookie-Lacks (c ∷ cs) h = let (a, b) = Cookie-Lacks cs h.1 in ((h.0.0, a), (h.0.1, b))

module _ (name : Bytes) (n v : Bytes) (hn : All IsCookieByte n) (hv : All IsCookieByte v) where
  item-NoBlank : NoBlank (item_of (n, v))
  item-NoBlank =
      All-append (λ c. is_blank c ≡ false) n (b'=' ∷ v) (Cookie-NoBlank n hn)
        (refl, Cookie-NoBlank v hv)

  item-Lacks : Lacks b';' (item_of (n, v))
  item-Lacks =
      All-append (λ c. c ≢ b';') n (b'=' ∷ v) (Cookie-Lacks n hn).0
        (omega arith, (Cookie-Lacks v hv).0)

  cookie_item_lem :
      (pad : Bool)
      → cookie_item name (spaced pad (item_of (n, v))) ≡ (if bytes_eq n name then some v else none)
  unfolding cookie_item
  cookie_item_lem pad = ground (
    arith,
    trim-spaced pad (item_of (n, v)) item-NoBlank,
    find-append b'=' n v (Cookie-Lacks n hn).1,
    take-append (length n) 0 n (b'=' ∷ v) (omega arith),
    append-nil n,
    trim_lem n (Cookie-NoBlank n hn),
    drop-append (suc (length n)) 1 n (b'=' ∷ v) (omega arith),
  )

cookie_loop-header_of :
    (name : Bytes) (c : Bytes × Bytes) (ds : List (Bytes × Bytes)) (fuel : ℕ) (pad : Bool)
    → AreCookies (c ∷ ds)
    → length ds < fuel
    → cookie_loop fuel name (spaced pad (header_of (c ∷ ds))) ≡ lookup name (c ∷ ds)
unfolding cookie_loop lookup spaced
cookie_loop-header_of name c ds zero pad h k = elim k [ ]
cookie_loop-header_of name (n, v) [] (suc fuel) pad ((hn, hv), h) k = ground (
  arith,
  find-Lacks b';' (spaced pad (item_of (n, v)))
      (spaced-Lacks pad (item_of (n, v)) (item-Lacks name n v hn hv)),
  cookie_item_lem name n v hn hv pad,
)
cookie_loop-header_of name (n, v) (d ∷ ds) (suc fuel) pad ((hn, hv), h) k =
    let seg = spaced pad (item_of (n, v)) in
    let rest = b' ' ∷ header_of (d ∷ ds) in
    let lacks = spaced-Lacks pad (item_of (n, v)) (item-Lacks name n v hn hv) in
    let next = cookie_loop-header_of name d ds fuel true h (omega arith) in
    rw (spaced-append pad (item_of (n, v)) (b';' ∷ rest)) (
      ground (
        arith,
        find-append b';' seg rest lacks,
        take-append (length seg) 0 seg (b';' ∷ rest) (omega arith),
        append-nil seg,
        drop-append (suc (length seg)) 1 seg (b';' ∷ rest) (omega arith),
        cookie_item_lem name n v hn hv pad,
        next,
      ))

length-header_of :
    (c : Bytes × Bytes) (ds : List (Bytes × Bytes)) → length ds < length (header_of (c ∷ ds)) + 1
length-header_of c [] = omega arith
length-header_of c (d ∷ ds) =
    omega
      (arith, length-header_of d ds, length-append (item_of c) (b';' ∷ b' ' ∷ header_of (d ∷ ds)))

-- From the header that a browser writes for a list of cookies, with names and values free of `;`,
-- `=`, spaces and tabs, `GetCookie` returns the value of the first cookie of the given name, and
-- nothing if there is none.
pub get_cookie-header_of :
    (cs : List (Bytes × Bytes)) (name : Bytes)
    → cs ≢ []
    → AreCookies cs
    → get_cookie (some (header_of cs)) name ≡ lookup name cs
unfolding get_cookie
get_cookie-header_of [] name n h = absurd (n refl)
get_cookie-header_of (c ∷ ds) name n h =
    unfold spaced in
    cookie_loop-header_of name c ds _ false h (omega (arith, length-header_of c ds))

-- The loop ends on every header: rounds beyond one for each byte and one more change nothing.
pub cookie_loop_fuel :
    (f g : ℕ) (name text : Bytes)
    → length text < f
    → length text < g
    → cookie_loop f name text ≡ cookie_loop g name text
unfolding cookie_loop
cookie_loop_fuel zero g name text h k = elim h [ ]
cookie_loop_fuel (suc f) zero name text h k = elim k [ ]
cookie_loop_fuel (suc f) (suc g) name text h k = elim (Option-cases (find b';' text)) [
  | inl e ↦ rw (e, cookie_loop)
  | inr (i, e) ↦
      let shorter = length-drop (suc i) text in
      let inside = (find-some b';' text i e).0 in
      ground (arith, cookie_loop_fuel f g name (drop (suc i) text) (omega arith) (omega arith))
]
