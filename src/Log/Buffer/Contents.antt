-- ===== src/Log/Buffer/Contents.antt =====
-- log_system/logs_code/AsyncBuffer.hpp: the buffer as a queue of bytes.
use asyn_log_system_cloud_st.Base.{
  ℕ, suc, ◌+◌, ◌-◌, ◌≤◌, ◌≡◌, ◌<◌, ◌⊎◌, refl, sym, ap, ◌∙◌, false, Bool-cases, inl, inr, ◌++◌,
  Bytes, ltb, leb, length, length-append, length-take, length-drop, length-replicate, take, drop,
  replicate, take-append, take-append_left, drop-append_left, drop-take, append-nil, u64_mod, IsU64,
  add64, sub64, add64-eq-add, sub64-eq-sub, arith, take_all,
}
use native.Mathlib.Nat.{le_refl}
use asyn_log_system_cloud_st.Log.Buffer.{
  BufferConfig, Buffer, length_error, ok, err, max_size, resized, resize, writeable_size, contents,
  ensure_writable, write_at, append,
}
use asyn_log_system_cloud_st.Log.Buffer.Growth.{IsConfig, limit_of, grow_total}

pub record IsValid (b : Buffer) : Type 0 where
  pub ordered : b.read_pos ≤ b.write_pos
  pub inside : b.write_pos ≤ length b.buffer
  pub fits : IsU64 (length b.buffer)

-- The two ways to cut the contents out of the vector.
contents_lem : (b : Buffer) → contents b ≡ drop b.read_pos (take b.write_pos b.buffer)
unfolding contents
contents_lem b = sym (drop-take b.read_pos b.write_pos b.buffer)

resized-append :
    (n : ℕ) (xs : Bytes) → length xs ≤ n → resized n xs ≡ xs ++ replicate (n - length xs) 0
unfolding resized
resized-append n xs h = elim (Bool-cases (leb n (length xs))) [
  | inr larger ↦ rw larger
  | inl same ↦
      let none_left : 0 ≡ n - length xs = ground arith in
      rw same (take_all n xs h ∙ sym (append-nil xs) ∙ ap (λ k. xs ++ replicate k 0) none_left)
]

length-resized : (n : ℕ) (xs : Bytes) → length (resized n xs) ≡ n
unfolding resized
length-resized n xs = ground (
  arith,
  length-take n xs,
  length-append xs (replicate (n - length xs) 0),
  length-replicate (n - length xs) (let zero_byte : ℕ = 0 in zero_byte),
)

-- The write lands between what was there and the tail, and changes no byte before it.
take-write_at :
    (pos : ℕ) (items xs : Bytes)
    → pos + length items ≤ length xs
    → take (pos + length items) (write_at pos items xs) ≡ take pos xs ++ items
unfolding write_at
take-write_at pos items xs h =
    let tail = drop (pos + length items) xs in
    take-append (pos + length items) (length items) (take pos xs) (items ++ tail)
      (omega (arith, length-take pos xs))
    ∙ ap (λ ys. take pos xs ++ ys)
        (take-append (length items) 0 items tail (omega arith) ∙ append-nil items)

length-write_at :
    (pos : ℕ) (items xs : Bytes)
    → pos + length items ≤ length xs
    → length (write_at pos items xs) ≡ length xs
unfolding write_at
length-write_at pos items xs h = omega (
  arith,
  length-append (take pos xs) (items ++ drop (pos + length items) xs),
  length-append items (drop (pos + length items) xs),
  length-take pos xs,
  length-drop (pos + length items) xs,
)

module _ (b : Buffer) (v : IsValid b) where
  pub append_lem :
      (items : Bytes)
      → b.write_pos + length items ≤ length b.buffer
      → IsValid (append b items)
        × (contents (append b items) ≡ contents b ++ items)
        × (length (append b items).buffer ≡ length b.buffer)
  unfolding append
  append_lem items h =
      let room = length-write_at b.write_pos items b.buffer h in
      let sum : add64 b.write_pos (length items) ≡ b.write_pos + length items =
        add64-eq-add b.write_pos (length items) (omega (arith, v.fits)) in
      let front = length-take b.write_pos b.buffer in
      (
        record {
          ordered = omega (arith, sum, v.ordered);
          inside = omega (arith, sum, room);
          fits = omega (arith, room, v.fits);
        },
        contents_lem (append b items)
            ∙ unfold append in
              rw (sum, take-write_at b.write_pos items b.buffer h)
                (drop-append_left b.read_pos (take b.write_pos b.buffer) items
                    (omega (arith, front, v.ordered, v.inside))
                  ∙ ap (λ xs. xs ++ items) (sym (contents_lem b))),
        room,
      )

  resized_lem :
      (n : ℕ)
      → length b.buffer ≤ n
      → IsU64 n
      → IsValid (record b { buffer = resized n b.buffer })
        × (contents (record b { buffer = resized n b.buffer }) ≡ contents b)
  resized_lem n h k =
      let room = length-resized n b.buffer in
      (
        record {
          ordered = v.ordered;
          inside = omega (arith, room, v.inside);
          fits = omega (arith, room);
        },
        contents_lem (record b { buffer = resized n b.buffer })
            ∙ rw
                (
                  resized-append n b.buffer h,
                  take-append_left b.write_pos b.buffer (replicate (n - length b.buffer) 0)
                      v.inside,
                )
                (sym (contents_lem b)),
      )

  -- The vector of a new size, or the exception.
  resize_cases :
      (n : ℕ)
      → (resize n b.buffer ≡ ok (resized n b.buffer))
        ⊎ ((resize n b.buffer ≡ err length_error) × (max_size < n))
  unfolding resize
  resize_cases n = elim (Bool-cases (ltb max_size n)) [
    | inl large ↦ inr (rw large, ground (arith, large))
    | inr fits ↦ inl (rw fits)
  ]

  -- Where there is no room and no overflow.
  grown_lem :
      (c : BufferConfig) (len : ℕ)
      → IsConfig c
      → IsU64 (b.write_pos + len)
      → leb len (writeable_size b) ≡ false
      → length b.buffer < b.write_pos + len
      → ((b' : Buffer) × (ensure_writable c b len ≡ ok b')
          × IsValid b'
          × (contents b' ≡ contents b)
          × (b'.write_pos ≡ b.write_pos)
          × (b.write_pos + len ≤ length b'.buffer)
          × (length b.buffer ≤ length b'.buffer))
        ⊎ ((ensure_writable c b len ≡ err length_error)
            × (max_size < limit_of c (b.write_pos + len)))
  unfolding ensure_writable
  grown_lem c len w h missing short =
      let sum : add64 b.write_pos len ≡ b.write_pos + len = add64-eq-add b.write_pos len h in
      let no_overflow : ltb (u64_mod - 1 - len) b.write_pos ≡ false = ground arith in
      let (n, e, p, q, u, k) =
        grow_total c (suc (add64 b.write_pos len)) (add64 b.write_pos len) (length b.buffer) w
          (omega (arith, sum)) v.fits (omega (arith, sum)) (omega arith) in
      elim (resize_cases n) [
        | inl made ↦
            let (valid, same) = resized_lem n q u in
            let room = length-resized n b.buffer in
            inl (
              record b { buffer = resized n b.buffer },
              rw (missing, no_overflow, e, made),
              valid,
              same,
              refl,
              omega (arith, room, sum),
              omega (arith, room),
            )
        | inr (thrown, large) ↦
            inr (rw (missing, no_overflow, e, thrown), omega (arith, large, k, sum))
      ]

  -- `EnsureWritable` of a valid buffer, with the sizes that the configuration is checked for,
  -- always ends. Either it makes the room that is asked for and keeps the contents and the
  -- positions, or it throws a length_error, and then twice what is required and the linear growth
  -- together are more than a vector can hold.
  pub ensure_writable_lem :
      (c : BufferConfig) (len : ℕ)
      → IsConfig c
      → IsU64 len
      → ((b' : Buffer) × (ensure_writable c b len ≡ ok b')
          × IsValid b'
          × (contents b' ≡ contents b)
          × (b'.write_pos ≡ b.write_pos)
          × (b.write_pos + len ≤ length b'.buffer)
          × (length b.buffer ≤ length b'.buffer))
        ⊎ ((ensure_writable c b len ≡ err length_error)
            × (max_size < limit_of c (b.write_pos + len)))
  unfolding ensure_writable writeable_size
  ensure_writable_lem c len w u =
      let room = sub64-eq-sub (length b.buffer) b.write_pos v.fits v.inside in
      let fact = v.inside in
      elim (Bool-cases (leb len (sub64 (length b.buffer) b.write_pos))) [
        | inl enough ↦
            inl (b, rw enough, v, refl, refl, ground (arith, room), le_refl (length b.buffer))
        | inr missing ↦ elim (Bool-cases (ltb (u64_mod - 1 - len) b.write_pos)) [
          | inl overflow ↦ inr (rw (missing, overflow), ground (arith, overflow))
          | inr none_left ↦
              grown_lem c len w (ground (arith, none_left, u)) missing
                (ground (arith, room, missing))
        ]
      ]
