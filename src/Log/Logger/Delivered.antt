-- ===== src/Log/Logger/Delivered.antt =====
-- log_system/logs_code/AsyncLogger.hpp, RealFlush: what is logged reaches the files of every
-- flusher.
use asyn_log_system_cloud_st.Base.{
  ℕ, ◌+◌, ◌≤◌, ◌≡◌, refl, sym, ap, subst, ◌∙◌, true, false, some, List, [], ◌∷◌, ◌++◌, append-nil,
  append_assoc, Bytes, length, length-append, map, All, IsU64, arith,
}
use asyn_log_system_cloud_st.Log.Buffer.{BufferConfig, Buffer, new, ok}
use asyn_log_system_cloud_st.Log.Buffer.Growth.{IsConfig}
use asyn_log_system_cloud_st.Log.Worker.{AsyncType, finished}
use asyn_log_system_cloud_st.Log.Worker.Steps.{Run, Reach, joined}
use asyn_log_system_cloud_st.Log.Worker.Delivery.{start_run}
use asyn_log_system_cloud_st.Log.Worker.Drain.{thread_run, thread_run-finished}
use asyn_log_system_cloud_st.Log.Sink.{RollFileFlush, SinkEvents, flush}
use asyn_log_system_cloud_st.Log.Sink.Rolled.{Progresses, Tracks, written, flush_lem}
use asyn_log_system_cloud_st.Log.Logger.{real_flush}

-- The flushers after the worker has handed a sequence of chunks to RealFlush.
abbrev pub flush_all : SinkEvents → List RollFileFlush → List Bytes → List RollFileFlush
flush_all ev sinks [] = sinks
flush_all ev sinks (chunk ∷ chunks) = flush_all ev (real_flush (flush ev) sinks chunk) chunks

-- The size kept is right, and there is room for `n` more bytes in 64 bits.
abbrev pub Ready : ℕ → RollFileFlush → Type 0
Ready n r = Tracks r × IsU64 (length (written r) + n)

module _ (ev : SinkEvents) (p : Progresses ev.fwrite) (sound : ev.error ≡ false)
    (opens : ev.fopened ≡ some []) where
  opened_short :
      (r : RollFileFlush) (file : Bytes) → r.opened ≡ some file → length file ≤ length (written r)
  opened_short r file e =
      let held : written r ≡ joined r.closed ++ file = ground (arith, e) in
      omega (arith, ap length held, length-append (joined r.closed) file)

  -- One chunk for one flusher.
  chunk_lem :
      (r : RollFileFlush) (chunk rest : Bytes)
      → Ready (length (chunk ++ rest)) r
      → Ready (length rest) (flush ev r chunk)
        × (written (flush ev r chunk) ++ rest ≡ written r ++ (chunk ++ rest))
  chunk_lem r chunk rest (tracks, u) =
      let flushed =
        flush_lem ev chunk p sound r opens tracks (omega (arith, u, length-append chunk rest))
          (λ file e. omega (arith, u, opened_short r file e, length-append chunk rest)) in
      (
        (
          flushed.tracks,
          omega (
            arith,
            u,
            ap length flushed.complete,
            length-append (written r) chunk,
            length-append chunk rest,
          ),
        ),
        ap (λ x. x ++ rest) flushed.complete ∙ append_assoc (written r) chunk rest,
      )

  -- One chunk for all of them.
  chunk-Ready :
      (sinks : List RollFileFlush) (chunk rest : Bytes)
      → All (Ready (length (chunk ++ rest))) sinks
      → All (Ready (length rest)) (real_flush (flush ev) sinks chunk)
        × (map (λ r. written r ++ rest) (real_flush (flush ev) sinks chunk)
            ≡ map (λ r. written r ++ (chunk ++ rest)) sinks)
  unfolding real_flush
  chunk-Ready [] chunk rest h = (tt, refl)
  chunk-Ready (r ∷ sinks) chunk rest h =
      let (ready, grown) = chunk_lem r chunk rest h.0 in
      let (others, same) = chunk-Ready sinks chunk rest h.1 in
      (
        (ready, others),
        ap (λ x. x ∷ map (λ q. written q ++ rest) (real_flush (flush ev) sinks chunk)) grown
            ∙ ap (λ xs. (written r ++ (chunk ++ rest)) ∷ xs) same,
      )

  flush_all_lem :
      (sinks : List RollFileFlush) (chunks : List Bytes)
      → All (Ready (length (joined chunks))) sinks
      → map written (flush_all ev sinks chunks) ≡ map (λ r. written r ++ joined chunks) sinks
  flush_all_lem sinks [] h = unchanged sinks
    where
      unchanged : (rs : List RollFileFlush) → map written rs ≡ map (λ r. written r ++ []) rs
      unchanged [] = refl
      unchanged (r ∷ rs) =
          ap (λ x. x ∷ map written rs) (sym (append-nil (written r)))
          ∙ ap (λ xs. (written r ++ []) ∷ xs) (unchanged rs)
  flush_all_lem sinks (chunk ∷ chunks) h =
      let (ready, same) = chunk-Ready sinks chunk (joined chunks) h in
      flush_all_lem (real_flush (flush ev) sinks chunk) chunks ready ∙ same

  -- From the push to the files. Once a stop is requested, in any state that a run of a worker with
  -- checked sizes can reach from its new buffers, the log thread returns after at most four of its
  -- own steps; and if the system calls of the flushers succeed, new files are empty, and each
  -- flusher keeps the size of its file and has room in 64 bits for what was accepted, then each
  -- flusher's files hold what they held before, followed by exactly the bytes of the successful
  -- pushes, in order.
  pub thread_run-written :
      (c : BufferConfig) (type_ : AsyncType) (producer consumer : Buffer) {r : Run}
      (sinks : List RollFileFlush)
      → IsConfig c
      → new (some c) ≡ ok producer
      → new (some c) ≡ ok consumer
      → Reach c (start_run type_ producer consumer) r
      → r.worker.stopping ≡ true
      → All (Ready (length r.accepted)) sinks
      → ((thread_run 4 r.worker).phase ≡ finished)
        × (map written (flush_all ev sinks (thread_run 4 r.worker).delivered)
            ≡ map (λ s. written s ++ r.accepted) sinks)
  thread_run-written c type_ producer consumer {r} sinks config e f reach s ready =
      let (done, all) = thread_run-finished c type_ producer consumer config e f reach s in
      (
        done,
        flush_all_lem sinks (thread_run 4 r.worker).delivered
              (subst (λ t. All (Ready (length t)) sinks) (sym all) ready)
            ∙ ap (λ t. map (λ q. written q ++ t) sinks) all,
      )
