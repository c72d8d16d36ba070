-- ===== src/Store/Platform.antt =====
-- What the metadata code calls outside the repository: JsonCpp, std::filesystem::path and the
-- configuration's values.
use asyn_log_system_cloud_st.Base.{ℕ, Bool, Option, List, Bytes}
use asyn_log_system_cloud_st.Base.Integers.{ℤ}

-- Json::Value with its constructors, its member access and its tests. `elements` is what indexing
-- below `size()` reads, `text_of` is asString where an exception is `none`, `set` is `value[key] =
-- x`. `serialize` and `unserialize` are the two of JsonUtil, `none` where they return false.
pub record Json : Type 1 where
  pub Value : Type 0
  pub null_value : Value
  pub array_value : Value
  pub of_int64 : ℤ → Value
  pub of_uint64 : ℕ → Value
  pub of_string : Bytes → Value
  pub set : Value → Bytes → Value → Value
  pub append : Value → Value → Value
  pub get : Value → Bytes → Value
  pub elements : Value → List Value
  pub is_null : Value → Bool
  pub is_array : Value → Bool
  pub is_object : Value → Bool
  pub is_member : Value → Bytes → Bool
  pub is_string : Value → Bool
  pub is_int64 : Value → Bool
  pub is_uint64 : Value → Bool
  pub is_uint : Value → Bool
  pub is_int : Value → Bool
  pub is_bool : Value → Bool
  pub as_string : Value → Bytes
  pub as_int64 : Value → ℤ
  pub as_uint64 : Value → ℕ
  pub as_uint : Value → ℕ
  pub as_int : Value → ℤ
  pub as_bool : Value → Bool
  pub text_of : Value → Option Bytes
  pub serialize : Value → Option Bytes
  pub unserialize : Bytes → Option Value

-- std::filesystem::path on strings.
pub record Paths : Type 0 where
  pub lexically_normal : Bytes → Bytes
  pub parent_path : Bytes → Bytes
  pub filename : Bytes → Bytes

-- The values that Config::GetInstance() returns.
pub record Config : Type 0 where
  pub storage_info_file : Bytes
  pub deep_storage_dir : Bytes
  pub low_storage_dir : Bytes
  pub download_prefix : Bytes
