-- ===== src/Log/Worker.antt =====
-- log_system/logs_code/AsyncWorker.hpp: producers, the log thread and the two buffers. Each section
-- under the mutex is one step; the thread's work between two locked sections is one step as well.
-- Any number of producers call `push` and `stop` in any order.
pub mod Steps
pub mod Delivery
pub mod Drain
pub mod Backpressure
use asyn_log_system_cloud_st.Base.{
  ℕ, Bool, true, false, not, ◌&&◌, ◌||◌, List, [], ◌∷◌, ◌++◌, Bytes, length, leb, if◌then◌else◌,
}
use asyn_log_system_cloud_st.Log.Buffer
use asyn_log_system_cloud_st.Log.Buffer.{BufferConfig, Buffer, Source, null, bytes, ok, err, Error}

pub data AsyncType : Type 0 where
  async_safe async_unsafe : AsyncType

-- Where the log thread is: before its locked section, behind it with a buffer to flush, returned.
pub data Phase : Type 0 where
  waiting flushing finished : Phase

-- `delivered` is what the flush callback has been handed so far, a chunk for each call.
pub record Worker : Type 0 where
  pub async_type : AsyncType
  pub producer : Buffer
  pub consumer : Buffer
  pub stopping : Bool
  pub phase : Phase
  pub delivered : List Bytes

pub data PushResult : Type 0 where
  blocked : PushResult
  returned : Worker → Bool → PushResult
  thrown : Error → PushResult

abbrev pub is_safe : AsyncType → Bool
is_safe async_safe = true
is_safe async_unsafe = false

abbrev pub source_length : Source → ℕ
source_length (null len) = len
source_length (bytes items) = length items

-- The predicate of `producer_ready_.wait`.
unfoldable pub may_push : Worker → ℕ → Bool
may_push w len =
    w.stopping || Buffer.is_empty w.producer || leb len (Buffer.writeable_size w.producer)

-- One passage of the locked section of `Push`; `blocked` is a wait that goes on.
unfoldable pub push : BufferConfig → Worker → Source → PushResult
push c w source =
    if is_safe w.async_type && not (may_push w (source_length source))
    then blocked
    else if w.stopping
    then returned w false
    else elim (Buffer.push c w.producer source) [
      | err e ↦ thrown e
      | ok producer' ↦ returned (record w { producer = producer' }) true
    ]

-- `Stop`, up to the join.
unfoldable pub stop : Worker → Worker
stop w = record w { stopping = true }

-- The locked section of `ThreadEntry`, entered where the wait's predicate holds.
unfoldable pub may_take : Worker → Bool
may_take w = w.stopping || not (Buffer.is_empty w.producer)

unfoldable pub take_buffers : Worker → Worker
unfolding Buffer.swap
take_buffers w =
    if w.stopping && Buffer.is_empty w.producer
    then record w { phase = finished }
    else let swapped = Buffer.swap w.producer w.consumer in
      record w { producer = swapped.0; consumer = swapped.1; phase = flushing }

-- Behind the locked section: the callback and `buffer_consumer_.Reset()`.
unfoldable pub flush : Worker → Worker
flush w = record w {
  delivered =
      if Buffer.is_empty w.consumer
      then w.delivered
      else w.delivered ++ Buffer.contents w.consumer ∷ [];
  consumer = Buffer.reset w.consumer;
  phase = waiting;
}

-- What the thread does next, as long as its wait would end; it stays where it is otherwise.
unfoldable pub thread_step : Worker → Worker
thread_step w = elim w.phase [
  | waiting ↦ if may_take w then take_buffers w else w
  | flushing ↦ flush w
  | finished ↦ w
]

-- The worker that the constructor makes of two new buffers.
abbrev pub start : AsyncType → Buffer → Buffer → Worker
start type_ producer consumer = record {
  async_type = type_;
  producer = producer;
  consumer = consumer;
  stopping = false;
  phase = waiting;
  delivered = [];
}
