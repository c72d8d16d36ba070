-- ===== src/Log/Buffer/Growth.antt =====
-- log_system/logs_code/AsyncBuffer.hpp, EnsureWritable: the growth loop ends, and makes enough
-- room.
use asyn_log_system_cloud_st.Base.{
  ℕ, zero, suc, ◌+◌, ◌-◌, ◌≤◌, ◌<◌, ◌≡◌, Bool-cases, some, inl, inr, ltb, if◌then◌else◌, u64_mod,
  IsU64, add64, add64-eq-add, max, arith,
}
use native.Mathlib.Nat.{le_refl}
use asyn_log_system_cloud_st.Log.Buffer.{BufferConfig, grow}

-- What the configuration file is checked for.
pub record IsConfig (c : BufferConfig) : Type 0 where
  pub has_size : 0 < c.buffer_size
  pub has_growth : 0 < c.linear_growth
  pub ordered : c.buffer_size ≤ c.threshold
  pub threshold_fits : IsU64 c.threshold
  pub growth_fits : IsU64 c.linear_growth

-- How much one round adds.
abbrev growth_of : BufferConfig → ℕ → ℕ
growth_of c n = if ltb n c.threshold then max n 1 else c.linear_growth

growth_pos : (c : BufferConfig) (n : ℕ) → IsConfig c → 0 < growth_of c n
growth_pos c n v = ground arith

-- The size that no round goes beyond.
abbrev pub limit_of : BufferConfig → ℕ → ℕ
limit_of c required = required + required + c.linear_growth

growth_limit :
    (c : BufferConfig) (required n : ℕ) → n < required → n + growth_of c n ≤ limit_of c required
growth_limit c required n h = ground arith

-- With more fuel than bytes missing the loop ends, at a size that holds what is required, is no
-- smaller than before, fits a size_t and is within the limit.
pub grow_total :
    (c : BufferConfig) (fuel required new_size : ℕ)
    → IsConfig c
    → IsU64 required
    → IsU64 new_size
    → new_size ≤ limit_of c required
    → required - new_size < fuel
    → (n : ℕ) × (grow c fuel required new_size ≡ some n)
      × (required ≤ n)
      × (new_size ≤ n)
      × IsU64 n
      × (n ≤ limit_of c required)
unfolding grow
grow_total c zero required new_size v r s l f = elim f [ ]
grow_total c (suc fuel) required new_size v r s l f = elim (Bool-cases (ltb new_size required)) [
  | inr enough ↦ (new_size, rw enough, ground arith, le_refl new_size, s, l)
  | inl missing ↦ elim (Bool-cases (ltb (u64_mod - 1 - new_size) (growth_of c new_size))) [
    | inl overflow ↦
        (required, rw (missing, overflow), le_refl required, ground arith, r, omega arith)
    | inr fits ↦
        let pos = growth_pos c new_size v in
        let limit = growth_limit c required new_size (ground (arith, missing)) in
        let sum : add64 new_size (growth_of c new_size) ≡ new_size + growth_of c new_size =
          add64-eq-add new_size (growth_of c new_size) (ground arith) in
        let (n, e, p, q, u, k) =
          grow_total c fuel required (add64 new_size (growth_of c new_size)) v r
            (ground (arith, sum)) (omega (arith, sum, limit)) (ground (arith, sum)) in
        (n, rw (missing, fits) e, p, ground (arith, sum), u, k)
  ]
]
