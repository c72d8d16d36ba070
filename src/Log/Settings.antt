-- ===== src/Log/Settings.antt =====
-- log_system/logs_code/Util.hpp, JsonData: the configuration of the logging library, read from
-- JSON. An exception is `none`.
pub mod Checked
use asyn_log_system_cloud_st.Base.{
  ℕ, zero, Bool, true, false, not, ◌||◌, ◌&&◌, Option, none, some, [], Bytes, codes, is_empty, ltb,
  leb, ◌==◌, if◌then◌else◌, u64_mod, ◌>>=◌,
}
use asyn_log_system_cloud_st.Base.Integers.{ℤ, pos, negsuc}
use asyn_log_system_cloud_st.Store.Platform.{Json}
use asyn_log_system_cloud_st.Log.Buffer.{BufferConfig}

pub record JsonData : Type 0 where
  pub buffer_size : ℕ
  pub threshold : ℕ
  pub linear_growth : ℕ
  pub flush_log : ℕ
  pub backup_addr : Bytes
  pub backup_port : ℕ
  pub thread_count : ℕ
  pub backup_queue_size : ℕ
  pub backup_connect_timeout_ms : ℤ
  pub backup_send_timeout_ms : ℤ
  pub backup_retries : ℤ
  pub backup_enabled : Bool
  pub backup_token : Bytes

-- `value <= 0`.
unfoldable pub is_not_positive : ℤ → Bool
is_not_positive (pos n) = n == 0
is_not_positive (negsuc n) = true

-- The part of the configuration that the buffers read.
abbrev pub buffer_config : JsonData → BufferConfig
buffer_config d = record {
  buffer_size = d.buffer_size;
  threshold = d.threshold;
  linear_growth = d.linear_growth;
}

module _ (j : Json) where
  unfoldable pub require_unsigned : j.Value → Bytes → Option ℕ
  require_unsigned root name =
      if not (j.is_member root name) || not (j.is_uint64 (j.get root name))
      then none
      else if leb u64_mod (j.as_uint64 (j.get root name))
      then none
      else some (j.as_uint64 (j.get root name))

  -- A value of an int that has to be positive.
  unfoldable pub require_positive : j.Value → Bytes → Option ℤ
  unfolding is_not_positive
  require_positive root name =
      if not (j.is_int (j.get root name)) || is_not_positive (j.as_int (j.get root name))
      then none
      else some (j.as_int (j.get root name))

  unfoldable pub require_address : j.Value → Option Bytes
  require_address root =
      if not (j.is_string (j.get root (codes "backup_addr")))
        || is_empty (j.as_string (j.get root (codes "backup_addr")))
      then none
      else some (j.as_string (j.get root (codes "backup_addr")))

  unfoldable pub require_port : j.Value → Option ℕ
  require_port root =
      let port = j.as_uint (j.get root (codes "backup_port")) in
      if not (j.is_uint (j.get root (codes "backup_port"))) || ((port == 0) || ltb 65535 port)
      then none
      else some port

  unfoldable pub require_bool : j.Value → Bytes → Option Bool
  require_bool root name =
      if not (j.is_bool (j.get root name)) then none else some (j.as_bool (j.get root name))

  -- `root.get("backup_token", "").asString()`.
  unfoldable pub token_of : j.Value → Option Bytes
  token_of root =
      if j.is_member root (codes "backup_token")
      then j.text_of (j.get root (codes "backup_token"))
      else some []

  -- The checks at the end of the constructor.
  unfoldable pub is_valid : JsonData → Bool
  is_valid d =
      not (
        (d.buffer_size == 0)
        || ((d.linear_growth == 0) || ((d.thread_count == 0) || (d.backup_queue_size == 0))))
      && (not (ltb d.threshold d.buffer_size) && not (ltb 2 d.flush_log))

  -- The reads in the order of the constructor.
  unfoldable pub read_members : j.Value → Option JsonData
  unfolding require_unsigned require_positive require_address require_port require_bool token_of
  read_members root = do
    buffer_size ← require_unsigned root (codes "buffer_size")
    threshold ← require_unsigned root (codes "threshold")
    linear_growth ← require_unsigned root (codes "linear_growth")
    flush_log ← require_unsigned root (codes "flush_log")
    thread_count ← require_unsigned root (codes "thread_count")
    backup_queue_size ← require_unsigned root (codes "backup_queue_size")
    backup_addr ← require_address root
    backup_port ← require_port root
    connect ← require_positive root (codes "backup_connect_timeout_ms")
    send ← require_positive root (codes "backup_send_timeout_ms")
    retries ← require_positive root (codes "backup_retries")
    enabled ← require_bool root (codes "backup_enabled")
    token ← token_of root
    some (record {
      buffer_size = buffer_size;
      threshold = threshold;
      linear_growth = linear_growth;
      flush_log = flush_log;
      backup_addr = backup_addr;
      backup_port = backup_port;
      thread_count = thread_count;
      backup_queue_size = backup_queue_size;
      backup_connect_timeout_ms = connect;
      backup_send_timeout_ms = send;
      backup_retries = retries;
      backup_enabled = enabled;
      backup_token = token;
    })

  -- `content` is `none` where the file cannot be read.
  unfoldable pub json_data : Option Bytes → Option JsonData
  unfolding read_members is_valid
  json_data content = do
    body ← content
    root ← j.unserialize body
    data_ ← (if j.is_object root then read_members root else none)
    if is_valid data_ then some data_ else none
