-- ===== src/Log/Worker/Steps.antt =====
-- log_system/logs_code/AsyncWorker.hpp: the runs of the worker, as a relation that also records the
-- bytes of each push that returned `true`.
use asyn_log_system_cloud_st.Base.{
  ◌+◌, ◌≡◌, refl, sym, ap, ◌∙◌, Bool, true, false, Bool-cases, ◌⊎◌, inl, inr, List, [], ◌∷◌, ◌++◌,
  Bytes, length, not, ◌&&◌, append-nil, append_assoc, IsU64,
}
use asyn_log_system_cloud_st.Log.Buffer
use asyn_log_system_cloud_st.Log.Buffer.{
  BufferConfig, Buffer, Source, null, bytes, Result, Error, ok, err, contents,
}
use asyn_log_system_cloud_st.Log.Worker.{
  Worker, is_safe, may_push, source_length, returned, waiting, flushing, push, stop, may_take,
  take_buffers, flush,
}

-- A run's state: the worker and the bytes accepted so far, in order.
pub record Run : Type 0 where
  pub worker : Worker
  pub accepted : Bytes

-- A push that would need more than 2^64 bytes of buffer throws and is no step.
pub data Step (c : BufferConfig) : Run → Run → Type 0 where
  pushed :
      {r : Run} {w : Worker} (items : Bytes)
      → IsU64 (r.worker.producer.write_pos + length items)
      → push c r.worker (bytes items) ≡ returned w true
      → Step c r (record { worker = w; accepted = r.accepted ++ items })
  rejected :
      {r : Run} {w : Worker} (source : Source)
      → push c r.worker source ≡ returned w false
      → Step c r (record r { worker = w })
  stopped : {r : Run} → Step c r (record r { worker = stop r.worker })
  taken :
      {r : Run}
      → r.worker.phase ≡ waiting
      → may_take r.worker ≡ true
      → Step c r (record r { worker = take_buffers r.worker })
  flushed : {r : Run} → r.worker.phase ≡ flushing → Step c r (record r { worker = flush r.worker })

pub data Reach (c : BufferConfig) (s : Run) : Run → Type 0 where
  here : Reach c s s
  next : {r t : Run} → Reach c s r → Step c r t → Reach c s t

-- The chunks that were delivered, one behind the other.
abbrev pub joined : List Bytes → Bytes
joined [] = []
joined (x ∷ xs) = x ++ joined xs

pub joined-append : (xs : List Bytes) (y : Bytes) → joined (xs ++ y ∷ []) ≡ joined xs ++ y
joined-append [] y = append-nil y
joined-append (x ∷ xs) y =
    ap (λ z. x ++ z) (joined-append xs y) ∙ sym (append_assoc x (joined xs) y)

Result-cases : (r : Result Buffer) → ((p : Buffer) × (r ≡ ok p)) ⊎ ((x : Error) × (r ≡ err x))
Result-cases (ok p) = inl (p, refl)
Result-cases (err x) = inr (x, refl)

-- A push that returns added to the producer's buffer, or left the worker alone because of a stop.
abbrev pub Returned : BufferConfig → Worker → Source → Worker → Bool → Type 0
Returned c w source w' b =
    ((b ≡ true)
      × (w.stopping ≡ false)
      × ((p : Buffer) × (Buffer.push c w.producer source ≡ ok p)
          × (w' ≡ record w { producer = p })))
    ⊎ ((b ≡ false) × (w' ≡ w) × (w.stopping ≡ true))

pub push-returned :
    (c : BufferConfig) (w w' : Worker) (source : Source) (b : Bool)
    → push c w source ≡ returned w' b
    → Returned c w source w' b
unfolding push
push-returned c w w' source b e =
    elim (Bool-cases (is_safe w.async_type && not (may_push w (source_length source)))) [
      | inl waits ↦ let f = rw waits at e in cc
      | inr passes ↦ elim (Bool-cases w.stopping) [
        | inl stops ↦ let f = rw (passes, stops) at e in inr (cc, cc, stops)
        | inr runs ↦ elim (Result-cases (Buffer.push c w.producer source)) [
          | inl (p, o) ↦ let f = rw (passes, runs, o, push) at e in inl (cc, runs, (p, o, cc))
          | inr (x, o) ↦ let f = rw (passes, runs, o, push) at e in cc
        ]
      ]
    ]
