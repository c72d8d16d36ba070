-- ===== src/Log/Buffer/Push.antt =====
-- log_system/logs_code/AsyncBuffer.hpp: what each operation does to the queue of bytes.
use asyn_log_system_cloud_st.Base.{
  ℕ, ◌+◌, ◌-◌, ◌≤◌, ◌<◌, ◌≡◌, ◌⊎◌, ◌↔◌, inl, inr, Bool-cases, ltb, refl, sym, ap, ◌∙◌, true, some,
  [], ◌∷◌, ◌++◌, Bytes, ◌==◌, length, length-take, length-drop, length-replicate, drop, replicate,
  append-nil, if◌then◌else◌, IsU64, arith, sub64-eq-sub,
}
use native.Mathlib.Nat.{le_refl}
use asyn_log_system_cloud_st.Log.Buffer.{
  BufferConfig, Buffer, invalid_argument, length_error, ok, err, null, bytes, max_size, resized,
  resize, new, is_empty, readable_size, contents, append, push, reset,
}
use asyn_log_system_cloud_st.Log.Buffer.Growth.{IsConfig, limit_of}
use asyn_log_system_cloud_st.Log.Buffer.Contents.{IsValid, append_lem, ensure_writable_lem}

-- A push to a valid buffer, with the sizes that the configuration is checked for: either it adds
-- the bytes behind the contents, keeps the buffer valid and does not shrink the vector; or it
-- throws a length_error, and then twice the size required and the linear growth together are more
-- than a vector can hold. A push from a null pointer throws unless it is empty.
pub push_lem :
    (c : BufferConfig) (b : Buffer) (items : Bytes) (len : ℕ)
    → IsConfig c
    → IsValid b
    → IsU64 (length items)
    → (((b' : Buffer) × (push c b (bytes items) ≡ ok b')
          × IsValid b'
          × (contents b' ≡ contents b ++ items)
          × (length b.buffer ≤ length b'.buffer))
        ⊎ ((push c b (bytes items) ≡ err length_error)
            × (max_size < limit_of c (b.write_pos + length items))))
      × (push c b (null len) ≡ (if len == 0 then ok b else err invalid_argument))
unfolding push
push_lem c b [] len w v h =
    (inl (b, refl, v, sym (append-nil (contents b)), le_refl (length b.buffer)), refl)
push_lem c b (x ∷ xs) len w v h = (
  elim (ensure_writable_lem b v c (length (x ∷ xs)) w h) [
    | inl (mid, e, valid, same, pos, room, larger) ↦
        let (valid', more, kept) = append_lem mid valid (x ∷ xs) (omega (arith, pos, room)) in
        inl (
          append mid (x ∷ xs),
          ground (arith, e),
          valid',
          more ∙ ap (λ ys. ys ++ x ∷ xs) same,
          omega (arith, kept, larger),
        )
    | inr (e, large) ↦ inr (ground (arith, e), large)
  ],
  refl,
)

length-contents : (b : Buffer) → IsValid b → length (contents b) ≡ b.write_pos - b.read_pos
unfolding contents
length-contents b v = omega (
  arith,
  length-take (b.write_pos - b.read_pos) (drop b.read_pos b.buffer),
  length-drop b.read_pos b.buffer,
  v.ordered,
  v.inside,
)

-- `IsEmpty()` and `ReadableSize()` speak of the contents.
pub contents_size :
    (b : Buffer)
    → IsValid b
    → ((is_empty b ≡ true) ↔ (contents b ≡ [])) × (readable_size b ≡ length (contents b))
unfolding is_empty readable_size
contents_size b v =
    let size = length-contents b v in
    let ordered = v.ordered in
    let none_left = λ (e : b.write_pos - b.read_pos ≡ 0). take_zero e in
    (
      (λ e. none_left (ground arith), λ e. ground (arith, size, ap length e)),
      sub64-eq-sub b.write_pos b.read_pos (omega (arith, v.inside, v.fits)) v.ordered ∙ sym size,
    )
  where
    take_zero : b.write_pos - b.read_pos ≡ 0 → contents b ≡ []
    take_zero e = unfold contents in rw e

-- A buffer as constructed, and one that was reset, is valid and holds nothing.
pub reset_lem :
    (b : Buffer)
    → IsValid b
    → IsValid (reset b) × (contents (reset b) ≡ []) × (is_empty (reset b) ≡ true)
unfolding reset is_empty contents
reset_lem b v = (record { ordered = omega arith; inside = omega arith; fits = v.fits }, refl, refl)

-- A buffer that the constructor makes is empty, valid and of the configured size.
pub new_lem :
    (c : BufferConfig) (b : Buffer)
    → new (some c) ≡ ok b
    → IsValid b × (contents b ≡ []) × (length b.buffer ≡ c.buffer_size)
unfolding new contents resize resized
new_lem c b e = elim (Bool-cases (c.buffer_size == 0)) [
  | inl none_ ↦ absurd (ground (arith, e, none_))
  | inr some_ ↦ elim (Bool-cases (ltb max_size c.buffer_size)) [
    | inl large ↦ absurd (ground (arith, e, some_, large))
    | inr fits ↦
        let made : record { buffer = replicate c.buffer_size 0; write_pos = 0; read_pos = 0 } ≡ b =
          ground (arith, e, some_, fits) in
        let size = length-replicate c.buffer_size (let z : ℕ = 0 in z) in
        rw (← made) (
          record { ordered = omega arith; inside = omega arith; fits = ground (arith, size, fits) },
          refl,
          size,
        )
  ]
]
