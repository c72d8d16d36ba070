-- ===== src/Base/Maps.antt =====
-- `std::unordered_map<std::string, V>` as an association list. The order of the entries stands
-- for the iteration order, which the program does not rely on.
use mathlib.Core.Path.{◌≡◌, refl, subst}
use mathlib.Core.Logic.{◌≢◌, inl, inr}
use mathlib.Core.Bool.{Bool}
use mathlib.Core.List.{List, [], ◌∷◌}
use mathlib.Core.Option.{Option, none, some}
use native.Mathlib.Omega.{arith}
use asyn_log_system_cloud_st.Base.Tests.{if◌then◌else◌, Bool-cases}
use asyn_log_system_cloud_st.Base.Text.{Bytes, bytes_eq, bytes_eq_iff}

module _ {ℓ} {V : Type ℓ} where
  -- `find(key)`; `none` is `end()`.
  unfoldable pub lookup : Bytes → List (Bytes × V) → Option V
  lookup k [] = none
  lookup k ((j, v) ∷ m) = if bytes_eq j k then some v else lookup k m

  -- `m[key] = value`.
  unfoldable pub assign : Bytes → V → List (Bytes × V) → List (Bytes × V)
  assign k v [] = (k, v) ∷ []
  assign k v ((j, w) ∷ m) = if bytes_eq j k then (k, v) ∷ m else (j, w) ∷ assign k v m

  -- `erase(key)`.
  unfoldable pub erase : Bytes → List (Bytes × V) → List (Bytes × V)
  erase k [] = []
  erase k ((j, w) ∷ m) = let rest = erase k m in if bytes_eq j k then rest else (j, w) ∷ rest

  -- The entries that pass a test, as a loop over iterators with `erase` leaves them.
  unfoldable pub keep_if : (V → Bool) → List (Bytes × V) → List (Bytes × V)
  keep_if p [] = []
  keep_if p ((j, w) ∷ m) = let rest = keep_if p m in if p w then (j, w) ∷ rest else rest

  -- No two entries have the same key.
  abbrev pub Absent : Bytes → List (Bytes × V) → Type 0
  Absent k [] = Unit {0}
  Absent k ((j, v) ∷ m) = (j ≢ k) × Absent k m

  abbrev pub IsMap : List (Bytes × V) → Type 0
  IsMap [] = Unit {0}
  IsMap ((j, v) ∷ m) = Absent j m × IsMap m

  pub lookup-assign :
      (k j : Bytes) (v : V) (m : List (Bytes × V))
      → lookup j (assign k v m) ≡ (if bytes_eq k j then some v else lookup j m)
  unfolding lookup assign
  lookup-assign k j v [] = refl
  lookup-assign k j v ((i, w) ∷ m) =
      ground (arith, bytes_eq_iff k j, bytes_eq_iff i k, bytes_eq_iff i j, lookup-assign k j v m)

  pub lookup-erase :
      (k j : Bytes) (m : List (Bytes × V))
      → lookup j (erase k m) ≡ (if bytes_eq k j then none else lookup j m)
  unfolding lookup erase
  lookup-erase k j [] = ground arith
  lookup-erase k j ((i, w) ∷ m) =
      ground (arith, bytes_eq_iff k j, bytes_eq_iff i k, bytes_eq_iff i j, lookup-erase k j m)

  pub lookup-Absent : (k : Bytes) (m : List (Bytes × V)) → lookup k m ≡ none → Absent k m
  unfolding lookup
  lookup-Absent k [] h = tt
  lookup-Absent k ((j, v) ∷ m) h = ground (arith, bytes_eq_iff j k, lookup-Absent k m)

  pub Absent-lookup : (k : Bytes) (m : List (Bytes × V)) → Absent k m → lookup k m ≡ none
  unfolding lookup
  Absent-lookup k [] h = refl
  Absent-lookup k ((j, v) ∷ m) h = ground (arith, bytes_eq_iff j k, Absent-lookup k m h.1)

  pub Absent-assign :
      (k j : Bytes) (v : V) (m : List (Bytes × V)) → j ≢ k → Absent k m → Absent k (assign j v m)
  unfolding assign
  Absent-assign k j v [] n h = (n, tt)
  Absent-assign k j v ((i, w) ∷ m) n h = ground (arith, Absent-assign k j v m n h.1)

  pub Absent-erase : (k j : Bytes) (m : List (Bytes × V)) → Absent k m → Absent k (erase j m)
  unfolding erase
  Absent-erase k j [] h = tt
  Absent-erase k j ((i, w) ∷ m) h = ground (arith, Absent-erase k j m h.1)

  pub Absent-keep_if :
      (p : V → Bool) (k : Bytes) (m : List (Bytes × V)) → Absent k m → Absent k (keep_if p m)
  unfolding keep_if
  Absent-keep_if p k [] h = tt
  Absent-keep_if p k ((i, w) ∷ m) h = ground (arith, Absent-keep_if p k m h.1)

  pub lookup-keep_if-none :
      (p : V → Bool) (k : Bytes) (m : List (Bytes × V))
      → lookup k m ≡ none
      → lookup k (keep_if p m) ≡ none
  lookup-keep_if-none p k m e =
      Absent-lookup k (keep_if p m) (Absent-keep_if p k m (lookup-Absent k m e))

  -- In a map, `keep_if` keeps exactly the entries that pass.
  pub lookup-keep_if :
      (p : V → Bool) (k : Bytes) (m : List (Bytes × V)) (v : V)
      → IsMap m
      → lookup k m ≡ some v
      → lookup k (keep_if p m) ≡ (if p v then some v else none)
  unfolding lookup keep_if
  lookup-keep_if p k [] v h e = cc
  lookup-keep_if p k ((j, w) ∷ m) v h e = elim (Bool-cases (bytes_eq j k)) [
    | inl hit ↦
        let gone = Absent-keep_if p k m (subst (λ x. Absent x m) ((bytes_eq_iff j k).0 hit) h.0) in
        ground (arith, Absent-lookup k (keep_if p m) gone)
    | inr miss ↦ ground (arith, lookup-keep_if p k m v h.1)
  ]

  pub assign-IsMap : (k : Bytes) (v : V) (m : List (Bytes × V)) → IsMap m → IsMap (assign k v m)
  unfolding assign
  assign-IsMap k v [] h = (tt, tt)
  assign-IsMap k v ((i, w) ∷ m) h = elim (Bool-cases (bytes_eq i k)) [
    | inl hit ↦ rw hit (subst (λ x. Absent x m) ((bytes_eq_iff i k).0 hit) h.0, h.1)
    | inr miss ↦
        rw miss (
          Absent-assign i k v m (λ e. ground (arith, bytes_eq_iff i k)) h.0,
          assign-IsMap k v m h.1,
        )
  ]

  pub erase-IsMap : (k : Bytes) (m : List (Bytes × V)) → IsMap m → IsMap (erase k m)
  unfolding erase
  erase-IsMap k [] h = tt
  erase-IsMap k ((i, w) ∷ m) h = ground (arith, erase-IsMap k m h.1, Absent-erase i k m h.0)

  pub keep_if-IsMap : (p : V → Bool) (m : List (Bytes × V)) → IsMap m → IsMap (keep_if p m)
  unfolding keep_if
  keep_if-IsMap p [] h = tt
  keep_if-IsMap p ((i, w) ∷ m) h = ground (arith, keep_if-IsMap p m h.1, Absent-keep_if p i m h.0)
