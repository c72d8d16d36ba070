-- ===== src/Http/Range/Shape.antt =====
-- src/server/Range.hpp: the headers that `parse_range_header` does not ignore.
use asyn_log_system_cloud_st.Base.{
  ℕ, suc, ◌≡◌, ◌≢◌, inl, inr, refl, sym, ap, ◌∙◌, Option, none, some, ◌∷◌, ◌++◌, ◌||◌, Bytes, Lacks,
  find, find-some, take, drop, length, is_empty, is_some, bytes_eq, bytes_eq_sound, Bool-cases,
  Option-cases, take-append-drop, arith,
}
use asyn_log_system_cloud_st.Http.Range.{
  ignore, split_at_dash, parse_value, prefix, parse_range_header,
}

split_at_dash-shape :
    (o : Option ℕ) (value : Bytes) (size : ℕ)
    → find b'-' value ≡ o
    → (split_at_dash o value size).status ≢ ignore
    → (a b : Bytes) × (value ≡ a ++ b'-' ∷ b) × Lacks b'-' a × (find b'-' b ≡ none)
unfolding split_at_dash
split_at_dash-shape none value size e s = absurd (s refl)
split_at_dash-shape (some dash) value size e s =
    elim (Option-cases (find b'-' (drop (suc dash) value))) [
      | inl single ↦
          let (_, before, whole) = find-some b'-' value dash e in
          (take dash value, drop (suc dash) value, sym whole, before, single)
      | inr (j, again) ↦ absurd (s (rw again))
    ]

parse_value-shape :
    (value : Bytes) (size : ℕ)
    → (parse_value value size).status ≢ ignore
    → (find b',' value ≡ none)
      × ((a b : Bytes) × (value ≡ a ++ b'-' ∷ b) × Lacks b'-' a × (find b'-' b ≡ none))
unfolding parse_value
parse_value-shape value size s = elim (Bool-cases (is_empty value || is_some (find b',' value))) [
  | inl bad ↦ absurd (s (rw bad))
  | inr good ↦ (ground arith, split_at_dash-shape _ value size refl (rw good at s))
]

-- A header that is not ignored is the prefix and one range: it has no comma behind the prefix, and
-- exactly one dash.
pub parse_range_header-shape :
    (header : Bytes) (size : ℕ)
    → (parse_range_header header size).status ≢ ignore
    → (a b : Bytes) × (header ≡ prefix ++ (a ++ b'-' ∷ b))
      × (find b',' (a ++ b'-' ∷ b) ≡ none)
      × Lacks b'-' a
      × (find b'-' b ≡ none)
unfolding parse_range_header
parse_range_header-shape header size s =
    elim (Bool-cases (bytes_eq (take (length prefix) header) prefix)) [
      | inr other ↦ absurd (s (rw other))
      | inl same ↦
          let (comma, parts) = parse_value-shape _ size (rw same at s) in
          let (a, b, value, before, behind) = parts in
          let whole = take-append-drop (length prefix) header in
          let front = bytes_eq_sound (take (length prefix) header) prefix same in
          (
            a,
            b,
            sym whole
                ∙ ap (λ x. x ++ drop (length prefix) header) front
                ∙ ap (λ x. prefix ++ x) value,
            rw (← value) comma,
            before,
            behind,
          )
    ]
