-- ===== src/Examples/Sinks.antt =====
-- log_system/logs_code/LogFlush.hpp and Util.hpp: the theorems at concrete inputs.
use asyn_log_system_cloud_st.Base.{
  ℕ, ◌+◌, ◌≡◌, refl, sym, ◌>>=◌, bytes_eq, true, false, some, [], ◌∷◌, Bytes, codes, length, arith,
  IsU64,
}
use asyn_log_system_cloud_st.Base.Integers.{pos}
use asyn_log_system_cloud_st.Log.Settings.{
  JsonData, json_data, read_members, require_unsigned, require_address, require_port,
  require_positive, require_bool, token_of, is_valid, is_not_positive,
}
use asyn_log_system_cloud_st.Log.Settings.Checked.{IsChecked, json_data-IsChecked}
use asyn_log_system_cloud_st.Log.Sink.{SinkEvents, RollFileFlush, flush}
use asyn_log_system_cloud_st.Log.Sink.Rolled.{Progresses, IsFlushed, flush_lem}
use asyn_log_system_cloud_st.Examples.Store.{texts}

-- One byte at a time.
abbrev pub slow : Bytes → ℕ
slow left = 1

pub slow-Progresses : Progresses slow
slow-Progresses [] n = absurd (n refl)
slow-Progresses (x ∷ xs) n = omega arith

abbrev pub calls : SinkEvents
calls = record { fopened = some []; size_known = true; fwrite = slow; error = false }

abbrev pub nearly_full : RollFileFlush
nearly_full = record {
  max_size = 3;
  current_size = 2;
  sequence = 1;
  opened = some (codes "ab");
  closed = [];
}

pub nearly_full-Tracks :
    (file : Bytes) → nearly_full.opened ≡ some file → nearly_full.current_size ≡ length file
nearly_full-Tracks file e = let same : codes "ab" ≡ file = cc in rw (sym same) refl

nearly_full_fits : (file : Bytes) → nearly_full.opened ≡ some file → IsU64 (length file + 2)
nearly_full_fits file e = omega (arith, nearly_full-Tracks file e)

flush_lem_example : IsFlushed nearly_full (codes "cd") (flush calls nearly_full (codes "cd"))
flush_lem_example =
    flush_lem calls (codes "cd") slow-Progresses refl nearly_full refl nearly_full-Tracks
      (omega arith) nearly_full_fits

abbrev pub ones : JsonData
ones = record {
  buffer_size = 1;
  threshold = 1;
  linear_growth = 1;
  flush_log = 1;
  backup_addr = codes "x";
  backup_port = 80;
  thread_count = 1;
  backup_queue_size = 1;
  backup_connect_timeout_ms = pos 5;
  backup_send_timeout_ms = pos 5;
  backup_retries = pos 5;
  backup_enabled = true;
  backup_token = codes "x";
}

reads : json_data texts (some (codes "x")) ≡ some ones
unfolding json_data read_members require_unsigned require_address require_port require_positive
    require_bool token_of is_valid is_not_positive ◌>>=◌ bytes_eq
reads = refl

json_data-IsChecked_example : IsChecked ones
json_data-IsChecked_example = json_data-IsChecked texts (some (codes "x")) ones reads
