-- ===== src/Service/Config.antt =====
-- src/server/Config.hpp: the configuration of the server, read from JSON and the environment. An
-- exception is `none`.
pub mod Checked
use asyn_log_system_cloud_st.Base.{
  ℕ, suc, Bool, true, false, not, ◌||◌, ◌&&◌, Option, none, some, List, [], ◌∷◌, Bytes, codes,
  length, all_pass, is_empty, ltb, leb, ◌==◌, if◌then◌else◌, u64_mod, ◌>>=◌,
}
use asyn_log_system_cloud_st.Base.Integers.{ℤ, pos, negsuc}
use asyn_log_system_cloud_st.Store.Platform.{Json, Paths}
use asyn_log_system_cloud_st.Service.Platform.{Settings}

pub record ServerConfig : Type 0 where
  pub server_port : ℕ
  pub server_ip : Bytes
  pub download_prefix : Bytes
  pub deep_storage_dir : Bytes
  pub low_storage_dir : Bytes
  pub temp_dir : Bytes
  pub storage_info : Bytes
  pub auth_salt : Bytes
  pub auth_hash : Bytes
  pub bundle_format : ℕ
  pub auth_iterations : ℕ
  pub session_ttl_seconds : ℕ
  pub max_upload_size : ℕ
  pub cookie_secure : Bool

-- The getters that the handlers use.
abbrev pub settings_of : ServerConfig → Settings
settings_of c = record {
  storage = record {
    storage_info_file = c.storage_info;
    deep_storage_dir = c.deep_storage_dir;
    low_storage_dir = c.low_storage_dir;
    download_prefix = c.download_prefix;
  };
  max_upload_size = c.max_upload_size;
  session_ttl_seconds = c.session_ttl_seconds;
  cookie_secure = c.cookie_secure;
  auth_hash = c.auth_hash;
}

-- A variable of the environment that is set and not empty, or the value it may replace.
unfoldable pub override : Option Bytes → Bytes → Bytes
override none value = value
override (some []) value = value
override (some (c ∷ cs)) value = c ∷ cs

unfoldable pub config_path : Option Bytes → Bytes
unfolding override
config_path configured_path = override configured_path (codes "Storage.conf")

-- `value.front()` and `value.back()`; 0 stands for the empty text, which is never asked.
abbrev pub front : Bytes → ℕ
front [] = 0
front (c ∷ cs) = c

abbrev pub back : Bytes → ℕ
back [] = 0
back (c ∷ []) = c
back (c ∷ d ∷ cs) = back (d ∷ cs)

unfoldable pub is_hex_digit : ℕ → Bool
is_hex_digit ch = (leb b'0' ch && leb ch b'9') || (leb b'a' ch && leb ch b'f')

-- The checks of single values behind the overrides.
unfoldable pub values_valid : ServerConfig → Bool
unfolding is_hex_digit
values_valid c =
    (front c.download_prefix == b'/')
    && ((back c.download_prefix == b'/')
        && ((length c.auth_hash == 64) && all_pass is_hex_digit c.auth_hash))

module _ (j : Json) where
  unfoldable pub read_string : j.Value → Bytes → Option Bytes
  read_string root name =
      if not (j.is_member root name)
        || (not (j.is_string (j.get root name)) || is_empty (j.as_string (j.get root name)))
      then none
      else some (j.as_string (j.get root name))

  unfoldable pub read_port : j.Value → Bytes → Option ℕ
  read_port root name =
      let value = j.as_uint (j.get root name) in
      if not (j.is_member root name) || not (j.is_uint (j.get root name))
      then none
      else if (value == 0) || ltb 65535 value
      then none
      else some value

  -- The minimum is not negative, so neither is a value that is accepted.
  unfoldable pub in_range : ℤ → ℕ → ℕ → Option ℕ
  in_range (pos value) minimum maximum =
      if ltb value minimum || ltb maximum value then none else some value
  in_range (negsuc value) minimum maximum = none

  unfoldable pub read_positive_int : j.Value → Bytes → ℕ → ℕ → Option ℕ
  unfolding in_range
  read_positive_int root name minimum maximum =
      if not (j.is_member root name) || not (j.is_int (j.get root name))
      then none
      else in_range (j.as_int (j.get root name)) minimum maximum

  unfoldable pub read_size : j.Value → Bytes → ℕ → ℕ → Option ℕ
  read_size root name minimum maximum =
      let value = j.as_uint64 (j.get root name) in
      if not (j.is_member root name) || not (j.is_uint64 (j.get root name))
      then none
      else if ltb value minimum || (ltb maximum value || leb u64_mod value)
      then none
      else some value

  unfoldable pub read_cookie_secure : j.Value → Option Bool
  read_cookie_secure root =
      if not (j.is_member root (codes "cookie_secure"))
        || not (j.is_bool (j.get root (codes "cookie_secure")))
      then none
      else some (j.as_bool (j.get root (codes "cookie_secure")))

  -- The reads in the order of ReadConfig.
  unfoldable pub read_members : j.Value → Option ServerConfig
  unfolding read_string read_port read_positive_int read_size read_cookie_secure
  read_members root = do
    server_port ← read_port root (codes "server_port")
    server_ip ← read_string root (codes "server_ip")
    download_prefix ← read_string root (codes "download_prefix")
    deep_storage_dir ← read_string root (codes "deep_storage_dir")
    low_storage_dir ← read_string root (codes "low_storage_dir")
    temp_dir ← read_string root (codes "temp_dir")
    storage_info ← read_string root (codes "storage_info")
    auth_salt ← read_string root (codes "auth_salt")
    auth_hash ← read_string root (codes "auth_hash")
    bundle_format ← read_positive_int root (codes "bundle_format") 0 5
    auth_iterations ← read_positive_int root (codes "auth_iterations") 10000 10000000
    session_ttl_seconds ← read_positive_int root (codes "session_ttl_seconds") 60 2592000
    max_upload_size ← read_size root (codes "max_upload_size") 1 4294967296
    cookie_secure ← read_cookie_secure root
    some (record {
      server_port = server_port;
      server_ip = server_ip;
      download_prefix = download_prefix;
      deep_storage_dir = deep_storage_dir;
      low_storage_dir = low_storage_dir;
      temp_dir = temp_dir;
      storage_info = storage_info;
      auth_salt = auth_salt;
      auth_hash = auth_hash;
      bundle_format = bundle_format;
      auth_iterations = auth_iterations;
      session_ttl_seconds = session_ttl_seconds;
      max_upload_size = max_upload_size;
      cookie_secure = cookie_secure;
    })

-- `same_path` is the equality of std::filesystem::path.
module _ (j : Json) (paths : Paths) (same_path : Bytes → Bytes → Bool) where
  -- The check of the directories.
  unfoldable pub directories_differ : ServerConfig → Bool
  directories_differ c =
      let low = paths.lexically_normal c.low_storage_dir in
      let deep = paths.lexically_normal c.deep_storage_dir in
      let temporary = paths.lexically_normal c.temp_dir in
      not (same_path low deep || (same_path low temporary || same_path deep temporary))

  -- The two overrides, and the checks behind them.
  unfoldable pub check_config : Option Bytes → Option Bytes → ServerConfig → Option ServerConfig
  unfolding override values_valid directories_differ
  check_config salt_override hash_override read =
      let c = record read {
        auth_salt = override salt_override read.auth_salt;
        auth_hash = override hash_override read.auth_hash;
      } in
      if values_valid c && directories_differ c then some c else none

  -- `content` is what the file of the configuration holds, `none` where it cannot be read.
  unfoldable pub read_config : Option Bytes → Option Bytes → Option Bytes → Option ServerConfig
  unfolding read_members check_config
  read_config salt_override hash_override content = do
    body ← content
    root ← j.unserialize body
    read ← (if j.is_object root then read_members j root else none)
    check_config salt_override hash_override read
