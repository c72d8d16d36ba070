-- ===== src/Auth/Session/History.antt =====
-- src/server/Service.cpp: any history of calls of the session store.
use asyn_log_system_cloud_st.Base.{
  ℕ, ◌≤◌, ◌≡◌, refl, ◌∙◌, Bool-cases, Option, Option-cases, none, some, inl, inr, List, [], ◌∷◌,
  Bytes, bytes_eq, leb, if◌then◌else◌, arith,
}
use asyn_log_system_cloud_st.Base.Maps.{
  lookup, IsMap, lookup-erase, assign-IsMap, erase-IsMap, keep_if-IsMap,
}
use asyn_log_system_cloud_st.Auth.Session.{
  SessionStore, random_token, remove_expired, create, validate, remove,
}
use asyn_log_system_cloud_st.Auth.Session.Refines.{
  live, active, Table, created, create-active, validate-active, validate-answer,
}

-- The calls, each with the time at which the clock is (first) read.
pub data Call : Type 0 where
  creates : ℕ → Option Bytes → Option Bytes → ℕ → Call
  validates : Bytes → Call
  removes : Bytes → Call

abbrev pub step : SessionStore → ℕ × Call → SessionStore
step s (now, creates ttl b c later) = (create s ttl b c now later).0
step s (now, validates token) = (validate s token now).0
step s (now, removes token) = remove s token

abbrev pub run : SessionStore → List (ℕ × Call) → SessionStore
run s [] = s
run s (c ∷ cs) = run (step s c) cs

-- The same calls on a table: a login writes an entry, a logout deletes one, and nothing else does.
abbrev login : Option Bytes → Option Bytes → Option (Bytes × Bytes)
login none c = none
login (some b) none = none
login (some b) (some c) = some (b, c)

abbrev pub table_step : Table → ℕ × Call → Table
table_step t (now, creates ttl b c later) =
    created ttl later (login (random_token b) (random_token c)) t
table_step t (now, validates token) = t
table_step t (now, removes token) = λ k. if bytes_eq token k then none else t k

abbrev pub table_run : Table → List (ℕ × Call) → Table
table_run t [] = t
table_run t (c ∷ cs) = table_run (table_step t c) cs

-- The clock does not run backwards, and has reached `now` when the history ends.
abbrev pub Chronological : ℕ → List (ℕ × Call) → ℕ → Type 0
Chronological from [] now = from ≤ now
Chronological from ((at, c) ∷ cs) now = (from ≤ at) × Chronological at cs now

pub record Refines (s : SessionStore) (table : Table) (now : ℕ) : Type 0 where
  pub is_map : IsMap s
  pub agrees : (t : ℕ) (k : Bytes) → now ≤ t → active s t k ≡ live t (table k)

create-IsMap :
    (s : SessionStore) (ttl : ℕ) (b c : Option Bytes) (now later : ℕ)
    → IsMap s
    → IsMap (create s ttl b c now later).0
unfolding create remove_expired
create-IsMap s ttl b c now later m = elim (Option-cases (random_token b)) [
  | inl e ↦ rw (e, create) m
  | inr (x, e) ↦ elim (Option-cases (random_token c)) [
    | inl f ↦ rw (e, f, create) m
    | inr (y, f) ↦ rw (e, f, create) (assign-IsMap x _ _ (keep_if-IsMap _ s m))
  ]
]

validate-IsMap :
    (s : SessionStore) (token : Bytes) (now : ℕ) → IsMap s → IsMap (validate s token now).0
unfolding validate
validate-IsMap s token now m = elim (Option-cases (lookup token s)) [
  | inl e ↦ rw (e, validate) m
  | inr (r, e) ↦
      rw (e, validate)
        (elim (Bool-cases (leb r.expires_at now)) [
          | inr fresh ↦ rw fresh m
          | inl stale ↦ rw stale (erase-IsMap token s m)
        ])
]

create-login :
    (s : SessionStore) (ttl : ℕ) (b c : Option Bytes) (now later : ℕ)
    → (create s ttl b c now later).1 ≡ login (random_token b) (random_token c)
unfolding create
create-login s ttl b c now later = elim (Option-cases (random_token b)) [
  | inl e ↦ rw (e, create)
  | inr (x, e) ↦ elim (Option-cases (random_token c)) [
    | inl f ↦ rw (e, f, create)
    | inr (y, f) ↦ rw (e, f, create)
  ]
]

live-created :
    (ttl later t : ℕ) (r : Option (Bytes × Bytes)) (f g : Table) (k : Bytes)
    → live t (f k) ≡ live t (g k)
    → live t (created ttl later r f k) ≡ live t (created ttl later r g k)
live-created ttl later t none f g k e = e
live-created ttl later t (some (x, y)) f g k e = elim (Bool-cases (bytes_eq x k)) [
  | inl same ↦ rw same
  | inr other ↦ rw other e
]

step-Refines :
    (s : SessionStore) (table : Table) (now at : ℕ) (c : Call)
    → now ≤ at
    → Refines s table now
    → Refines (step s (at, c)) (table_step table (at, c)) at
step-Refines s table now at (creates ttl b c later) h r = record {
  is_map = create-IsMap s ttl b c at later r.is_map;
  agrees = λ t k e.
      create-active s ttl b c at later t k r.is_map e
      ∙ rw (create-login s ttl b c at later)
          (live-created ttl later t _ (λ j. lookup j s) table k (r.agrees t k (omega arith)));
}
step-Refines s table now at (validates token) h r = record {
  is_map = validate-IsMap s token at r.is_map;
  agrees = λ t k e. validate-active s token at t k e ∙ r.agrees t k (omega arith);
}
step-Refines s table now at (removes token) h r = record {
  is_map = unfold remove in erase-IsMap token s r.is_map;
  agrees = λ t k e.
      unfold remove in
      rw lookup-erase (elim (Bool-cases (bytes_eq token k)) [
        | inl same ↦ rw same
        | inr other ↦ rw other (r.agrees t k (omega arith))
      ]);
}

run-Refines :
    (s : SessionStore) (table : Table) (cs : List (ℕ × Call)) (from now : ℕ)
    → Chronological from cs now
    → Refines s table from
    → Refines (run s cs) (table_run table cs) now
run-Refines s table [] from now h r = record {
  is_map = r.is_map;
  agrees = λ t k e. r.agrees t k (omega arith);
}
run-Refines s table ((at, c) ∷ cs) from now h r =
    run-Refines (step s (at, c)) (table_step table (at, c)) cs at now h.1
      (step-Refines s table from at c h.0 r)

-- After any history from the empty store, with the clock not running backwards, a token is accepted
-- exactly if the last login that returned it was not followed by its logout, and has not expired;
-- the record is that login's. Removing expired sessions early or late changes no answer.
pub validate-run :
    (cs : List (ℕ × Call)) (now : ℕ) (token : Bytes)
    → Chronological 0 cs now
    → (validate (run [] cs) token now).1 ≡ live now (table_run (λ k. none) cs token)
validate-run cs now token h =
    validate-answer (run [] cs) token now
    ∙ (run-Refines [] (λ k. none) cs 0 now h start).agrees now token (omega arith)
  where
    start : Refines [] (λ k. none) 0
    start = unfold lookup in record { is_map = tt; agrees = λ t k e. refl }
