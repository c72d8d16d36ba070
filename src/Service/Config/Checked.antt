-- ===== src/Service/Config/Checked.antt =====
-- src/server/Config.hpp: what an accepted configuration satisfies.
use asyn_log_system_cloud_st.Base.{
  ℕ, ◌≡◌, subst, ◌≢◌, ◌⊎◌, ◌≤◌, arith, true, false, Bool, Option, none, some, [], ◌∷◌, Bytes, codes,
  length, All, all_pass, Bool-cases, inl, inr, if◌then◌else◌, Sat, bind-Sat,
}
use asyn_log_system_cloud_st.Store.Platform.{Json, Paths}
use asyn_log_system_cloud_st.Service.Config.{
  ServerConfig, override, front, back, is_hex_digit, values_valid, read_string, read_port, in_range,
  read_positive_int, read_size, read_members, directories_differ, check_config, read_config,
}

abbrev IsBetween : ℕ → ℕ → ℕ → Type 0
IsBetween minimum maximum n = (minimum ≤ n) × (n ≤ maximum)

-- What the reads check.
pub record IsRead (c : ServerConfig) : Type 0 where
  pub port : IsBetween 1 65535 c.server_port
  pub has_ip : c.server_ip ≢ []
  pub has_info : c.storage_info ≢ []
  pub has_salt : c.auth_salt ≢ []
  pub format : c.bundle_format ≤ 5
  pub iterations : IsBetween 10000 10000000 c.auth_iterations
  pub ttl : IsBetween 60 2592000 c.session_ttl_seconds
  pub upload : IsBetween 1 4294967296 c.max_upload_size

abbrev pub IsLowerHex : ℕ → Type 0
IsLowerHex ch = ((b'0' ≤ ch) × (ch ≤ b'9')) ⊎ ((b'a' ≤ ch) × (ch ≤ b'f'))

-- What the whole constructor checks.
pub record IsChecked (paths : Paths) (same_path : Bytes → Bytes → Bool) (c : ServerConfig)
    : Type 0 where
  pub reads : IsRead c
  pub slash_before : front c.download_prefix ≡ b'/'
  pub slash_behind : back c.download_prefix ≡ b'/'
  pub hash_length : length c.auth_hash ≡ 64
  pub hash_hex : All IsLowerHex c.auth_hash
  pub low_deep :
      same_path
        (paths.lexically_normal c.low_storage_dir)
        (paths.lexically_normal c.deep_storage_dir)
      ≡ false
  pub low_temp :
      same_path (paths.lexically_normal c.low_storage_dir) (paths.lexically_normal c.temp_dir)
      ≡ false
  pub deep_temp :
      same_path (paths.lexically_normal c.deep_storage_dir) (paths.lexically_normal c.temp_dir)
      ≡ false

module _ (j : Json) (root : j.Value) where
  string_lem : (name s : Bytes) → read_string j root name ≡ some s → s ≢ []
  unfolding read_string
  string_lem name s e = ground arith

  port_lem : (name : Bytes) (n : ℕ) → read_port j root name ≡ some n → IsBetween 1 65535 n
  unfolding read_port
  port_lem name n e = ground arith

  int_lem :
      (name : Bytes) (minimum maximum n : ℕ)
      → read_positive_int j root name minimum maximum ≡ some n
      → IsBetween minimum maximum n
  unfolding read_positive_int in_range
  int_lem name minimum maximum n e = ground arith

  size_lem :
      (name : Bytes) (minimum maximum n : ℕ)
      → read_size j root name minimum maximum ≡ some n
      → IsBetween minimum maximum n
  unfolding read_size
  size_lem name minimum maximum n e = ground arith

  members-IsRead : Sat IsRead (read_members j root)
  unfolding read_members
  members-IsRead = bind-Sat IsRead _ _ (λ server_port a1. bind-Sat IsRead _ _ (λ server_ip a2.
      bind-Sat IsRead _ _ (λ prefix a3. bind-Sat IsRead _ _ (λ deep a4.
        bind-Sat IsRead _ _ (λ low a5. bind-Sat IsRead _ _ (λ temp a6.
          bind-Sat IsRead _ _ (λ info a7. bind-Sat IsRead _ _ (λ salt a8.
            bind-Sat IsRead _ _ (λ hash a9. bind-Sat IsRead _ _ (λ format b1.
              bind-Sat IsRead _ _ (λ iterations b2. bind-Sat IsRead _ _ (λ ttl b3.
                bind-Sat IsRead _ _ (λ upload b4. bind-Sat IsRead _ _ (λ secure b5. record {
                  port = port_lem (codes "server_port") server_port a1;
                  has_ip = string_lem (codes "server_ip") server_ip a2;
                  has_info = string_lem (codes "storage_info") info a7;
                  has_salt = string_lem (codes "auth_salt") salt a8;
                  format = (int_lem (codes "bundle_format") 0 5 format b1).1;
                  iterations = int_lem (codes "auth_iterations") 10000 10000000 iterations b2;
                  ttl = int_lem (codes "session_ttl_seconds") 60 2592000 ttl b3;
                  upload = size_lem (codes "max_upload_size") 1 4294967296 upload b4;
                }))))))))))))))

override-ne-empty : (o : Option Bytes) (value : Bytes) → value ≢ [] → override o value ≢ []
unfolding override
override-ne-empty none value n = n
override-ne-empty (some []) value n = n
override-ne-empty (some (c ∷ cs)) value n = λ e. cc

all_pass-IsLowerHex : (xs : Bytes) → all_pass is_hex_digit xs ≡ true → All IsLowerHex xs
unfolding is_hex_digit
all_pass-IsLowerHex [] h = tt
all_pass-IsLowerHex (x ∷ xs) h = (ground arith, all_pass-IsLowerHex xs (ground arith))

values_lem :
    (c : ServerConfig)
    → values_valid c ≡ true
    → (front c.download_prefix ≡ b'/')
      × (back c.download_prefix ≡ b'/')
      × (length c.auth_hash ≡ 64)
      × (all_pass is_hex_digit c.auth_hash ≡ true)
unfolding values_valid
values_lem c h = ground arith

module _ (j : Json) (paths : Paths) (same_path : Bytes → Bytes → Bool) where
  directories_lem :
      (c : ServerConfig)
      → directories_differ j paths same_path c ≡ true
      → (same_path
            (paths.lexically_normal c.low_storage_dir)
            (paths.lexically_normal c.deep_storage_dir)
          ≡ false)
        × (same_path (paths.lexically_normal c.low_storage_dir) (paths.lexically_normal c.temp_dir)
            ≡ false)
        × (same_path (paths.lexically_normal c.deep_storage_dir) (paths.lexically_normal c.temp_dir)
            ≡ false)
  unfolding directories_differ
  directories_lem c h = ground arith

  -- The configuration with the overrides.
  abbrev overridden : Option Bytes → Option Bytes → ServerConfig → ServerConfig
  overridden salt_override hash_override read = record read {
    auth_salt = override salt_override read.auth_salt;
    auth_hash = override hash_override read.auth_hash;
  }

  overridden-IsRead :
      (salt_override hash_override : Option Bytes) (read : ServerConfig)
      → IsRead read
      → IsRead (overridden salt_override hash_override read)
  overridden-IsRead salt_override hash_override read r = record {
    port = r.port;
    has_ip = r.has_ip;
    has_info = r.has_info;
    has_salt = override-ne-empty salt_override read.auth_salt r.has_salt;
    format = r.format;
    iterations = r.iterations;
    ttl = r.ttl;
    upload = r.upload;
  }

  valid-IsChecked :
      (c : ServerConfig)
      → IsRead c
      → values_valid c ≡ true
      → directories_differ j paths same_path c ≡ true
      → IsChecked paths same_path c
  valid-IsChecked c r v d =
      let (before, behind, size, hex) = values_lem c v in
      let (low_deep, low_temp, deep_temp) = directories_lem c d in
      record {
        reads = r;
        slash_before = before;
        slash_behind = behind;
        hash_length = size;
        hash_hex = all_pass-IsLowerHex c.auth_hash hex;
        low_deep = low_deep;
        low_temp = low_temp;
        deep_temp = deep_temp;
      }

  check-Sat :
      (salt_override hash_override : Option Bytes) (read : ServerConfig)
      → IsRead read
      → Sat
          (IsChecked paths same_path)
          (check_config j paths same_path salt_override hash_override read)
  unfolding check_config
  check-Sat salt_override hash_override read r =
      let c = overridden salt_override hash_override read in
      elim (Bool-cases (values_valid c)) [
        | inr v ↦ rw v tt
        | inl v ↦ elim (Bool-cases (directories_differ j paths same_path c)) [
          | inr d ↦ rw (v, d) tt
          | inl d ↦
              rw (v, d)
                (valid-IsChecked c (overridden-IsRead salt_override hash_override read r) v d)
        ]
      ]

  object-IsRead :
      (root : j.Value) (read : ServerConfig)
      → (if j.is_object root then read_members j root else none) ≡ some read
      → IsRead read
  object-IsRead root read e = elim (Bool-cases (j.is_object root)) [
    | inr o ↦ cc
    | inl o ↦
        let found : read_members j root ≡ some read = ground (arith, e) in
        subst (Sat IsRead) found (members-IsRead j root)
  ]

  -- Whatever the file and the environment hold, a configuration that is accepted has a port from 1
  -- to 65535, an address, a metadata file and a salt that are not empty, a pack format, an
  -- iteration count, a session time and an upload size in their ranges, a download prefix that
  -- starts and ends with a slash, a password hash of 64 lower-case hexadecimal digits (also where
  -- the environment replaces it), and three directories of which no two are the same path.
  pub read_config-IsChecked :
      (salt_override hash_override content : Option Bytes) (c : ServerConfig)
      → read_config j paths same_path salt_override hash_override content ≡ some c
      → IsChecked paths same_path c
  unfolding read_config
  read_config-IsChecked salt_override hash_override content c e =
      subst (Sat (IsChecked paths same_path)) e (
        bind-Sat _ _ _ (λ body b. bind-Sat _ _ _ (λ root r.
          bind-Sat _ _ _
            (λ read m. check-Sat salt_override hash_override read (object-IsRead root read m)))))
