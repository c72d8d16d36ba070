-- ===== src/Log/Sink/Rolled.antt =====
-- log_system/logs_code/LogFlush.hpp: a record is written whole, and a file is rolled in time.
use asyn_log_system_cloud_st.Base.{
  ℕ, zero, suc, ◌+◌, ◌≤◌, ◌<◌, ◌≡◌, ◌≢◌, refl, sym, ap, ◌∙◌, ◌⊎◌, inl, inr, true, false, ◌&&◌, none,
  some, List, [], ◌∷◌, ◌++◌, append-nil, append_assoc, Bytes, length, length-append, length-drop,
  take, drop, take-append-drop, ◌==◌, if◌then◌else◌, add64, add64-eq-add, IsU64, Bool-cases,
  Option-cases, arith,
}
use asyn_log_system_cloud_st.Log.Worker.Steps.{joined, joined-append}
use asyn_log_system_cloud_st.Log.Sink.{
  write_loop, write_all, RollFileFlush, SinkEvents, close_file, open_file, has_room, ensure_file,
  after_write, write_record, flush,
}

-- fwrite writes at most what it is given, and something of it.
abbrev pub Progresses : (Bytes → ℕ) → Type 0
Progresses fwrite = (left : Bytes) → left ≢ [] → (0 < fwrite left) × (fwrite left ≤ length left)

not_zero : (n : ℕ) → 0 < n → (n == 0) ≡ false
not_zero n h = ground arith

pub write_loop_lem :
    (fwrite : Bytes → ℕ) (fuel : ℕ) (file left : Bytes)
    → Progresses fwrite
    → length left < fuel
    → write_loop fwrite fuel file left ≡ (file ++ left, true)
unfolding write_loop
write_loop_lem fwrite zero file left p h = elim h [ ]
write_loop_lem fwrite (suc fuel) file [] p h = ap (λ f. (f, true)) (sym (append-nil file))
write_loop_lem fwrite (suc fuel) file (x ∷ xs) p h =
    let (some_, most) = p (x ∷ xs) (λ e. cc) in
    ap
      (λ c.
        if c
        then (file, false)
        else write_loop fwrite fuel (file ++ take (fwrite (x ∷ xs)) (x ∷ xs))
            (drop (fwrite (x ∷ xs)) (x ∷ xs)))
      (not_zero (fwrite (x ∷ xs)) some_)
    ∙ (write_loop_lem fwrite fuel _ _ p (omega (arith, h, length-drop (fwrite (x ∷ xs)) (x ∷ xs)))
        ∙ ap (λ f. (f, true))
            (append_assoc file (take (fwrite (x ∷ xs)) (x ∷ xs)) (drop (fwrite (x ∷ xs)) (x ∷ xs))
              ∙ ap (λ t. file ++ t) (take-append-drop (fwrite (x ∷ xs)) (x ∷ xs))))

-- If fwrite always gets on and there is no error, WriteAll appends the whole text and succeeds.
pub write_all_lem :
    (fwrite : Bytes → ℕ) (file text : Bytes)
    → Progresses fwrite
    → write_all fwrite false file text ≡ (file ++ text, true)
unfolding write_all
write_all_lem fwrite file text p =
    ap (λ x. (x.0, x.1 && true))
      (write_loop_lem fwrite (suc (length text)) file text p (omega arith))

module _ (ev : SinkEvents) (text : Bytes) (p : Progresses ev.fwrite)
    (sound : ev.error ≡ false) where
  write_record_lem :
      (r : RollFileFlush) (file : Bytes)
      → r.opened ≡ some file
      → write_record ev text r ≡ record r {
        opened = some (file ++ text);
        current_size = add64 r.current_size (length text);
      }
  unfolding write_record after_write
  write_record_lem r file e =
      let whole : write_all ev.fwrite ev.error file text ≡ (file ++ text, true) =
        ap (λ x. write_all ev.fwrite x file text) sound ∙ write_all_lem ev.fwrite file text p in
      opened_lem ∙ ap (after_write r (length text)) whole
    where
      opened_lem :
          write_record ev text r
          ≡ after_write r (length text) (write_all ev.fwrite ev.error file text)
      opened_lem = ground arith

-- The size that is kept is the size of the open file.
abbrev pub Tracks : RollFileFlush → Type 0
Tracks r = (file : Bytes) → r.opened ≡ some file → r.current_size ≡ length file

-- Everything that was written, in order.
abbrev pub written : RollFileFlush → Bytes
written r = joined r.closed ++ elim r.opened [ none ↦ [] | some file ↦ file ]

-- What a flush leaves: the size is kept right, nothing is lost or reordered, and the open file is
-- within the maximum, unless it holds this record alone or the record is empty.
pub record IsFlushed (r : RollFileFlush) (text : Bytes) (q : RollFileFlush) : Type 0 where
  pub tracks : Tracks q
  pub complete : written q ≡ written r ++ text
  pub bounded :
      (file : Bytes)
      → q.opened ≡ some file
      → (length file ≤ r.max_size) ⊎ ((file ≡ text) ⊎ (text ≡ []))

module _ (ev : SinkEvents) (text : Bytes) (p : Progresses ev.fwrite)
    (sound : ev.error ≡ false) where
  flush_ready :
      (r s : RollFileFlush)
      → ensure_file ev r (length text) ≡ (s, true)
      → flush ev r text ≡ write_record ev text s
  unfolding flush
  flush_ready r s e = ground (arith, e)

  -- The open file has room, by its size.
  room_lem :
      (r : RollFileFlush) (n : ℕ)
      → has_room r n ≡ true
      → (r.current_size ≡ 0) ⊎ ((r.current_size + n ≤ r.max_size) ⊎ (n ≡ 0))
  unfolding has_room
  room_lem r n h = ground arith

  into_file :
      (r s : RollFileFlush) (file : Bytes)
      → s.opened ≡ some file
      → s.current_size ≡ length file
      → IsU64 (length file + length text)
      → joined s.closed ++ file ≡ written r
      → (length (file ++ text) ≤ r.max_size) ⊎ ((file ++ text ≡ text) ⊎ (text ≡ []))
      → IsFlushed r text (write_record ev text s)
  into_file r s file o c u w b = rw (write_record_lem ev text p sound s file o) (record {
    tracks = λ f e.
        let same : file ++ text ≡ f = cc in
        rw (sym same) (
          ap (λ n. add64 n (length text)) c
          ∙ (add64-eq-add (length file) (length text) u ∙ sym (length-append file text)));
    complete = sym (append_assoc (joined s.closed) file text) ∙ ap (λ t. t ++ text) w;
    bounded = λ f e. let same : file ++ text ≡ f = cc in rw (sym same) b;
  })

  -- The state with a new file behind the closed ones.
  abbrev fresh : RollFileFlush → List Bytes → RollFileFlush
  fresh r closed = record r {
    sequence = r.sequence + 1;
    opened = some [];
    current_size = 0;
    closed = closed;
  }

  ensure_room :
      (r : RollFileFlush) (file : Bytes) (n : ℕ)
      → r.opened ≡ some file
      → has_room r n ≡ true
      → ensure_file ev r n ≡ (r, true)
  unfolding ensure_file
  ensure_room r file n e h = ground arith

  ensure_new :
      (r : RollFileFlush) (n : ℕ)
      → ev.fopened ≡ some []
      → r.opened ≡ none
      → ensure_file ev r n ≡ (fresh r r.closed, true)
  unfolding ensure_file open_file
  ensure_new r n o e = ground arith

  ensure_roll :
      (r : RollFileFlush) (file : Bytes) (n : ℕ)
      → ev.fopened ≡ some []
      → r.opened ≡ some file
      → has_room r n ≡ false
      → ensure_file ev r n ≡ (fresh r (r.closed ++ file ∷ []), true)
  unfolding ensure_file open_file close_file
  ensure_roll r file n o e h = ground arith

  written_none : (r : RollFileFlush) → r.opened ≡ none → joined r.closed ++ [] ≡ written r
  written_none r e = ground (arith, e)

  written_some :
      (r : RollFileFlush) (file : Bytes)
      → r.opened ≡ some file
      → joined r.closed ++ file ≡ written r
  written_some r file e = ground (arith, e)

  -- When the system calls succeed and new files are empty, a flush writes the whole record: what
  -- the closed files and the open file hold together is what they held before, followed by the
  -- record, and the size kept for the open file is its length. After it the open file is within the
  -- maximum size, unless it holds this record alone or the record is empty.
  pub flush_lem :
      (r : RollFileFlush)
      → ev.fopened ≡ some []
      → Tracks r
      → IsU64 (length text)
      → ((file : Bytes) → r.opened ≡ some file → IsU64 (length file + length text))
      → IsFlushed r text (flush ev r text)
  flush_lem r opens tracks u v = elim (Option-cases r.opened) [
    | inl e ↦
        let q = fresh r r.closed in
        rw (flush_ready r q (ensure_new r (length text) opens e))
          (into_file r q [] refl refl (omega (arith, u)) (written_none r e) (inr (inl refl)))
    | inr (file, e) ↦ elim (Bool-cases (has_room r (length text))) [
      | inl room ↦ rw (flush_ready r r (ensure_room r file (length text) e room)) (
          into_file r r file e (tracks file e) (v file e) (written_some r file e)
            (within r file (tracks file e) room))
      | inr full ↦
          let q = fresh r (r.closed ++ file ∷ []) in
          rw (flush_ready r q (ensure_roll r file (length text) opens e full)) (
            into_file r q [] refl refl (omega (arith, u))
              (append-nil (joined (r.closed ++ file ∷ []))
                ∙ (joined-append r.closed file ∙ written_some r file e))
              (inr (inl refl)))
    ]
  ]
    where
      empty_text : (xs : Bytes) → length xs ≡ 0 → xs ≡ []
      empty_text [] h = refl
      empty_text (x ∷ xs) h = absurd (omega (arith, h))

      within :
          (s : RollFileFlush) (file : Bytes)
          → s.current_size ≡ length file
          → has_room s (length text) ≡ true
          → (length (file ++ text) ≤ s.max_size) ⊎ ((file ++ text ≡ text) ⊎ (text ≡ []))
      within s file c h = elim (room_lem s (length text) h) [
        | inl start ↦ inr (inl (ap (λ f. f ++ text) (empty_text file (sym c ∙ start))))
        | inr (inl fits) ↦ inl (omega (arith, fits, c, length-append file text))
        | inr (inr nothing) ↦ inr (inr (empty_text text nothing))
      ]
