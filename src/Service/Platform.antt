-- ===== src/Service/Platform.antt =====
-- What the service calls outside the repository: libevent's request, OpenSSL, the base64 and bundle
-- libraries and std::filesystem; and the values of the configuration.
use asyn_log_system_cloud_st.Base.{ℕ, Bool, Option, Bytes}
use asyn_log_system_cloud_st.Base.Integers.{ℤ}
use asyn_log_system_cloud_st.Store.Platform.{Json, Paths, Config}

-- evhttp_cmd_type: the three methods that the service allows, and the others.
pub data Method : Type 0 where
  method_get method_post method_head method_other : Method

-- evhttp_request. `path` is `none` where the URI or its path is null, `body` where there is no
-- input buffer, `peer` where the address is null. `find_header` is evhttp_find_header on the input
-- headers.
pub record Request : Type 0 where
  pub path : Option Bytes
  pub method : Method
  pub find_header : Bytes → Option Bytes
  pub body : Option Bytes
  pub peer : Option Bytes

-- Functions of libraries; `none` is a failure or an exception. `derive` is PKCS5_PBKDF2_HMAC with
-- the configured salt and iterations, `same_bytes` is CRYPTO_memcmp being 0 on texts of one length,
-- `sha256` is EVP_Digest. The last two are FormatSize and FormatTime, which rest on floating point
-- and on the local time zone.
pub record System : Type 1 where
  pub json : Json
  pub paths : Paths
  pub join_path : Bytes → Bytes → Bytes
  pub base64_decode : Bytes → Option Bytes
  pub derive : Bytes → Option Bytes
  pub same_bytes : Bytes → Bytes → Bool
  pub pack : Bytes → Option Bytes
  pub unpack : Bytes → Option Bytes
  pub sha256 : Bytes → Option Bytes
  pub format_size : ℕ → Bytes
  pub format_time : ℤ → Bytes

-- The values that Config::GetInstance() returns to the service.
pub record Settings : Type 0 where
  pub storage : Config
  pub max_upload_size : ℕ
  pub session_ttl_seconds : ℕ
  pub cookie_secure : Bool
  pub auth_hash : Bytes
