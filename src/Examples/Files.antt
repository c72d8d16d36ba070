-- ===== src/Examples/Files.antt =====
-- src/server/Config.hpp and FileUtil of Util.hpp: the theorems at concrete inputs.
use asyn_log_system_cloud_st.Base.{
  ◌+◌, ◌≡◌, ◌≤◌, refl, true, none, some, List, [], ◌∷◌, Bytes, codes, bytes_eq, length, take, drop,
  replicate, arith, ◌>>=◌, if◌then◌else◌,
}
use asyn_log_system_cloud_st.Base.Calls.{moved, interrupted, transfer}
use asyn_log_system_cloud_st.Base.Integers.{pos}
use asyn_log_system_cloud_st.Store.Platform.{Json}
use asyn_log_system_cloud_st.Store.FileUtil.{
  ReadCalls, WriteCalls, get_pos_len, read_slice, after_reads, get_content, set_content,
}
use asyn_log_system_cloud_st.Store.FileUtil.Slices.{get_pos_len-some, get_content-set_content}
use asyn_log_system_cloud_st.Service.Config.{
  ServerConfig, override, is_hex_digit, values_valid, read_string, read_port, in_range,
  read_positive_int, read_size, read_cookie_secure, read_members, directories_differ, check_config,
  read_config,
}
use asyn_log_system_cloud_st.Service.Config.Checked.{IsChecked, read_config-IsChecked}
use asyn_log_system_cloud_st.Examples.Store.{texts, flat}

-- A document whose members are texts with their own name, but for three.
abbrev named : Json
named = record texts {
  get = λ v k. k;
  as_int = λ v.
      if bytes_eq v (codes "auth_iterations")
      then pos 10000
      else if bytes_eq v (codes "session_ttl_seconds")
      then pos 60
      else pos 5;
  as_string = λ v.
      if bytes_eq v (codes "auth_hash")
      then replicate 64 b'a'
      else if bytes_eq v (codes "download_prefix")
      then codes "/d/"
      else v;
}

abbrev server_config : ServerConfig
server_config = record {
  server_port = 80;
  server_ip = codes "server_ip";
  download_prefix = codes "/d/";
  deep_storage_dir = codes "deep_storage_dir";
  low_storage_dir = codes "low_storage_dir";
  temp_dir = codes "temp_dir";
  storage_info = codes "storage_info";
  auth_salt = codes "salt";
  auth_hash = replicate 64 b'a';
  bundle_format = 5;
  auth_iterations = 10000;
  session_ttl_seconds = 60;
  max_upload_size = 1;
  cookie_secure = true;
}

config_read :
    read_config named flat bytes_eq (some (codes "salt")) none (some (codes "x"))
    ≡ some server_config
unfolding read_config read_members check_config override values_valid is_hex_digit read_string
    read_port in_range read_positive_int read_size read_cookie_secure directories_differ ◌>>=◌
    bytes_eq
config_read = refl

read_config-IsChecked_example : IsChecked flat bytes_eq server_config
read_config-IsChecked_example =
    read_config-IsChecked named flat bytes_eq (some (codes "salt")) none (some (codes "x"))
      server_config config_read

abbrev single_reads : ReadCalls
single_reads = record {
  opened = true;
  preads = moved 1 ∷ interrupted ∷ moved 1 ∷ [];
  closed = true;
}

abbrev single_writes : WriteCalls
single_writes = record {
  opened = true;
  writes = moved 1 ∷ interrupted ∷ moved 1 ∷ [];
  synced = true;
  closed = true;
}

reads_slice : get_pos_len single_reads (some (codes "abcd")) 1 2 ≡ some (codes "bc")
unfolding get_pos_len read_slice after_reads transfer
reads_slice = refl

get_pos_len-some_example :
    (codes "bc" ≡ take 2 (drop 1 (codes "abcd"))) × (length (codes "bc") ≡ 2) × (1 + 2 ≤ 4)
get_pos_len-some_example = get_pos_len-some single_reads (codes "abcd") 1 2 (codes "bc") reads_slice

get_content-set_content_example :
    ((set_content single_writes (some (codes "abcd")) (codes "xy")).1 ≡ true)
    × (get_content single_reads (set_content single_writes (some (codes "abcd")) (codes "xy")).0
        ≡ some (codes "xy"))
get_content-set_content_example =
    get_content-set_content single_reads single_writes (some (codes "abcd")) (codes "xy")
      (omega arith) (refl, refl, refl, (omega arith, (tt, (omega arith, tt))), omega arith)
      (refl, refl, (omega arith, (tt, (omega arith, tt))), omega arith)

abbrev packed_files : List (Bytes × Bytes)
packed_files = (codes "deep/a", codes "xy") ∷ []
