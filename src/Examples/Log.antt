-- ===== src/Examples/Log.antt =====
-- The logging library at concrete inputs.
use asyn_log_system_cloud_st.Base.{
  ◌≤◌, ◌<◌, ◌≡◌, ◌⊎◌, refl, some, true, [], ◌∷◌, ◌++◌, codes, length, sub64, add64, arith,
}
use asyn_log_system_cloud_st.Log.Buffer.{
  BufferConfig, Buffer, bytes, null, ok, err, invalid_argument, length_error, grow, push, new,
  contents, readable_size, is_empty, ensure_writable, write_at, append, max_size, resized, resize,
  writeable_size,
}
use asyn_log_system_cloud_st.Log.Buffer
use asyn_log_system_cloud_st.Log.Buffer.Growth.{IsConfig}
use asyn_log_system_cloud_st.Log.Buffer.Contents.{IsValid, ensure_writable_lem}
use asyn_log_system_cloud_st.Log.Buffer.Push.{push_lem}
use asyn_log_system_cloud_st.Log.Worker.{
  Worker, async_safe, returned, finished, stop, start, take_buffers,
}
use asyn_log_system_cloud_st.Log.Worker
use asyn_log_system_cloud_st.Log.Worker.Steps.{Run, Reach, here, next, pushed, stopped, joined}
use asyn_log_system_cloud_st.Log.Worker.Delivery.{start_run, Reach-delivered}
use asyn_log_system_cloud_st.Log.Worker.Drain.{thread_run, thread_run-finished}

abbrev pub small : BufferConfig
small = record { buffer_size = 2; threshold = 4; linear_growth = 3 }

pub small-IsConfig : IsConfig small
small-IsConfig = omega arith

abbrev pub fresh : Buffer
fresh = record { buffer = 0 ∷ 0 ∷ []; write_pos = 0; read_pos = 0 }

fresh-IsValid : IsValid fresh
fresh-IsValid = omega arith

-- Doubling below the threshold, then steps of three.
grow_runs : grow small 20 6 2 ≡ some 7
unfolding grow add64
grow_runs = refl

ensure_writable_lem_example :
    ((b : Buffer) × (ensure_writable small fresh 5 ≡ ok b)
      × IsValid b
      × (contents b ≡ contents fresh)
      × (b.write_pos ≡ 0)
      × (5 ≤ length b.buffer)
      × (2 ≤ length b.buffer))
    ⊎ ((ensure_writable small fresh 5 ≡ err length_error) × (max_size < 13))
ensure_writable_lem_example =
    ensure_writable_lem fresh fresh-IsValid small 5 small-IsConfig (omega arith)

push_lem_example :
    (((b : Buffer) × (push small fresh (bytes (codes "abcde")) ≡ ok b)
        × IsValid b
        × (contents b ≡ contents fresh ++ codes "abcde")
        × (2 ≤ length b.buffer))
      ⊎ ((push small fresh (bytes (codes "abcde")) ≡ err length_error) × (max_size < 13)))
    × (push small fresh (null 3) ≡ err invalid_argument)
push_lem_example = push_lem small fresh (codes "abcde") 3 small-IsConfig fresh-IsValid (omega arith)

pub new_runs : new (some small) ≡ ok fresh
unfolding new resize resized
new_runs = refl

abbrev after_ab : Buffer
after_ab = record { buffer = codes "ab"; write_pos = 2; read_pos = 0 }

abbrev with_ab : Worker
with_ab = record (start async_safe fresh fresh) { producer = after_ab }

push_runs :
    Worker.push small (start async_safe fresh fresh) (bytes (codes "ab")) ≡ returned with_ab true
unfolding Worker.push Worker.may_push Buffer.push ensure_writable writeable_size is_empty sub64
    append write_at add64
push_runs = refl

abbrev pub stopped_run : Run
stopped_run = record { worker = record with_ab { stopping = true }; accepted = codes "ab" }

pub stopped_run-Reach : Reach small (start_run async_safe fresh fresh) stopped_run
unfolding stop
stopped_run-Reach = next (next here (pushed (codes "ab") (omega arith) push_runs)) stopped

Reach-delivered_example :
    (joined stopped_run.worker.delivered
        ++ (contents stopped_run.worker.consumer ++ contents stopped_run.worker.producer)
      ≡ stopped_run.accepted)
    × (stopped_run.worker.phase ≡ finished
        → joined stopped_run.worker.delivered ≡ stopped_run.accepted)
Reach-delivered_example =
    Reach-delivered small small-IsConfig async_safe fresh fresh new_runs new_runs stopped_run-Reach

thread_run-finished_example :
    ((thread_run 4 stopped_run.worker).phase ≡ finished)
    × (joined (thread_run 4 stopped_run.worker).delivered ≡ codes "ab")
thread_run-finished_example =
    thread_run-finished small async_safe fresh fresh small-IsConfig new_runs new_runs
      stopped_run-Reach refl

abbrev half_full : Worker
half_full = record (start async_safe fresh fresh) {
  producer = record { buffer = 1 ∷ 2 ∷ 3 ∷ []; write_pos = 2; read_pos = 0 };
}

abbrev full_count : Buffer
full_count = record { buffer = []; write_pos = 0; read_pos = 0 }
