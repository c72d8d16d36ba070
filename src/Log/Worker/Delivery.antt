-- ===== src/Log/Worker/Delivery.antt =====
-- log_system/logs_code/AsyncWorker.hpp: no byte that was accepted is lost, repeated or reordered.
use asyn_log_system_cloud_st.Base.{
  ◌+◌, ◌≡◌, refl, sym, ap, ◌∙◌, true, false, Bool-cases, &&-eq-true, subst, inl, inr, some, [],
  ◌++◌, Bytes, length, ◌&&◌, append-nil, append_assoc, IsU64, arith,
}
use asyn_log_system_cloud_st.Log.Buffer
use asyn_log_system_cloud_st.Log.Buffer.{
  BufferConfig, Buffer, Source, null, bytes, ok, err, contents, new,
}
use asyn_log_system_cloud_st.Log.Buffer.Growth.{IsConfig}
use asyn_log_system_cloud_st.Log.Buffer.Contents.{IsValid}
use asyn_log_system_cloud_st.Log.Buffer.Push.{push_lem, contents_size, reset_lem, new_lem}
use asyn_log_system_cloud_st.Log.Worker.{
  Worker, AsyncType, Phase, waiting, flushing, finished, stop, take_buffers, flush, start,
}
use asyn_log_system_cloud_st.Log.Worker.Steps.{
  Run, Step, pushed, rejected, stopped, taken, flushed, Reach, here, next, joined, joined-append,
  push-returned, Returned,
}

-- Between its locked sections the thread owns the consumer's buffer, which is empty while it waits.
abbrev pub PhaseFits : Phase → Worker → Type 0
PhaseFits waiting w = contents w.consumer ≡ []
PhaseFits flushing w = Unit {0}
PhaseFits finished w = (contents w.consumer ≡ []) × (contents w.producer ≡ []) × (w.stopping ≡ true)

pub record Inv (r : Run) : Type 0 where
  pub producer_valid : IsValid r.worker.producer
  pub consumer_valid : IsValid r.worker.consumer
  pub phase_fits : PhaseFits r.worker.phase r.worker
  pub in_order :
      joined r.worker.delivered ++ (contents r.worker.consumer ++ contents r.worker.producer)
      ≡ r.accepted

pub take_buffers-Inv :
    (r : Run) → Inv r → r.worker.phase ≡ waiting → Inv (record r { worker = take_buffers r.worker })
unfolding take_buffers
take_buffers-Inv r v e =
    let w = r.worker in
    let idle : contents w.consumer ≡ [] = subst (λ p. PhaseFits p w) e v.phase_fits in
    elim (Bool-cases (w.stopping && Buffer.is_empty w.producer)) [
      | inl last ↦ rw last (record {
        producer_valid = v.producer_valid;
        consumer_valid = v.consumer_valid;
        phase_fits = (
          idle,
          (contents_size w.producer v.producer_valid).0.0 (&&-eq-true _ _ last).1,
          (&&-eq-true _ _ last).0,
        );
        in_order = v.in_order;
      })
      | inr more ↦ rw more (record {
        producer_valid = v.consumer_valid;
        consumer_valid = v.producer_valid;
        phase_fits = tt;
        in_order = rw (idle, append-nil) (rw idle at v.in_order);
      })
    ]

pub flush-Inv :
    (r : Run) → Inv r → r.worker.phase ≡ flushing → Inv (record r { worker = flush r.worker })
unfolding flush
flush-Inv r v e =
    let w = r.worker in
    let (valid, none_left, _) = reset_lem w.consumer v.consumer_valid in
    record {
      producer_valid = v.producer_valid;
      consumer_valid = valid;
      phase_fits = none_left;
      in_order = elim (Bool-cases (Buffer.is_empty w.consumer)) [
        | inl idle ↦
            rw (idle, none_left)
              (rw ((contents_size w.consumer v.consumer_valid).0.0 idle) at v.in_order)
        | inr full ↦ rw (full, none_left, joined-append, append_assoc) v.in_order
      ];
    }

PhaseFits-producer :
    (ph : Phase) (w : Worker) (p : Buffer)
    → w.stopping ≡ false
    → PhaseFits ph w
    → PhaseFits ph (record w { producer = p })
PhaseFits-producer waiting w p e h = h
PhaseFits-producer flushing w p e h = h
PhaseFits-producer finished w p e h = cc (h.2)

PhaseFits-stop :
    (ph : Phase) (w : Worker) → PhaseFits ph w → PhaseFits ph (record w { stopping = true })
PhaseFits-stop waiting w h = h
PhaseFits-stop flushing w h = h
PhaseFits-stop finished w h = (h.0, h.1, refl)

pub finished-delivered :
    (r : Run) → Inv r → r.worker.phase ≡ finished → joined r.worker.delivered ≡ r.accepted
finished-delivered r v done =
    let (a, b, _) = subst (λ ph. PhaseFits ph r.worker) done v.phase_fits in
    sym (append-nil (joined r.worker.delivered)) ∙ (rw (a, b) at v.in_order)

-- The worker as constructed, with two new buffers.
abbrev pub start_run : AsyncType → Buffer → Buffer → Run
start_run type_ p q = record { worker = start type_ p q; accepted = [] }

module _ (c : BufferConfig) (config : IsConfig c) where
  pushed_lem :
      (b p : Buffer) (items : Bytes)
      → IsValid b
      → IsU64 (b.write_pos + length items)
      → Buffer.push c b (bytes items) ≡ ok p
      → IsValid p × (contents p ≡ contents b ++ items)
  pushed_lem b p items v fits e = elim ((push_lem c b items 0 config v (omega (arith, fits))).0) [
    | inl (p', e', valid, more, _) ↦
        let same : p' ≡ p = cc in (subst IsValid same valid, ap contents (sym same) ∙ more)
    | inr (e', _) ↦ absurd (ground (arith, e, e'))
  ]

  added-Inv :
      (r : Run) (p : Buffer) (items : Bytes)
      → Inv r
      → r.worker.stopping ≡ false
      → IsU64 (r.worker.producer.write_pos + length items)
      → Buffer.push c r.worker.producer (bytes items) ≡ ok p
      → Inv (record { worker = record r.worker { producer = p }; accepted = r.accepted ++ items })
  added-Inv r p items v runs fits e =
      let (valid, more) = pushed_lem r.worker.producer p items v.producer_valid fits e in
      record {
        producer_valid = valid;
        consumer_valid = v.consumer_valid;
        phase_fits = PhaseFits-producer r.worker.phase r.worker p runs v.phase_fits;
        in_order =
            rw (more, ← v.in_order)
              (ap (λ x. joined r.worker.delivered ++ x) (sym (append_assoc _ _ items))
                ∙ sym (append_assoc (joined r.worker.delivered) _ items));
      }

  pushed-Inv :
      (r : Run) (w : Worker) (items : Bytes)
      → Inv r
      → IsU64 (r.worker.producer.write_pos + length items)
      → Returned c r.worker (bytes items) w true
      → Inv (record { worker = w; accepted = r.accepted ++ items })
  pushed-Inv r w items v fits (inl (_, runs, (p, e, same))) =
      rw same (added-Inv r p items v runs fits e)
  pushed-Inv r w items v fits (inr (no_, _, _)) = cc

  rejected-Inv :
      (r : Run) (w : Worker) (source : Source)
      → Inv r
      → Returned c r.worker source w false
      → Inv (record r { worker = w })
  rejected-Inv r w source v (inl (no_, _, _)) = cc
  rejected-Inv r w source v (inr (_, same, _)) = rw same v

  Step-Inv : {r t : Run} → Step c r t → Inv r → Inv t
  unfolding stop
  Step-Inv (pushed {r} {w} items fits e) v =
      pushed-Inv r w items v fits (push-returned c r.worker w (bytes items) true e)
  Step-Inv (rejected {r} {w} source e) v =
      rejected-Inv r w source v (push-returned c r.worker w source false e)
  Step-Inv (stopped {r}) v = record {
    producer_valid = v.producer_valid;
    consumer_valid = v.consumer_valid;
    phase_fits = PhaseFits-stop r.worker.phase r.worker v.phase_fits;
    in_order = v.in_order;
  }
  Step-Inv (taken {r} e h) v = take_buffers-Inv r v e
  Step-Inv (flushed {r} e) v = flush-Inv r v e

  pub Reach-Inv : {s r : Run} → Inv s → Reach c s r → Inv r
  Reach-Inv v here = v
  Reach-Inv v (next reach st) = Step-Inv st (Reach-Inv v reach)

  pub start-Inv :
      (type_ : AsyncType) (p q : Buffer)
      → new (some c) ≡ ok p
      → new (some c) ≡ ok q
      → Inv (start_run type_ p q)
  start-Inv type_ p q e f =
      let (valid_p, none_p, _) = new_lem c p e in
      let (valid_q, none_q, _) = new_lem c q f in
      record {
        producer_valid = valid_p;
        consumer_valid = valid_q;
        phase_fits = none_q;
        in_order = rw (none_p, none_q);
      }

  -- In every run from a new worker the chunks handed to the flush callback, the bytes being flushed
  -- and the bytes waiting are, in this order, exactly what the successful pushes were given; and
  -- once the thread has returned, everything accepted has been delivered.
  pub Reach-delivered :
      (type_ : AsyncType) (p q : Buffer) {r : Run}
      → new (some c) ≡ ok p
      → new (some c) ≡ ok q
      → Reach c (start_run type_ p q) r
      → (joined r.worker.delivered ++ (contents r.worker.consumer ++ contents r.worker.producer)
          ≡ r.accepted)
        × (r.worker.phase ≡ finished → joined r.worker.delivered ≡ r.accepted)
  Reach-delivered type_ p q {r} e f reach =
      let v = Reach-Inv (start-Inv type_ p q e f) reach in (v.in_order, finished-delivered r v)
