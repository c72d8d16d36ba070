-- ===== src/Log/Settings/Checked.antt =====
-- log_system/logs_code/Util.hpp, JsonData: what an accepted configuration satisfies.
use asyn_log_system_cloud_st.Base.{
  ℕ, ◌≡◌, subst, ◌≢◌, ◌≤◌, ◌<◌, arith, true, false, Option, none, some, [], Bytes, codes, IsU64,
  Bool-cases, inl, inr, if◌then◌else◌, Sat, bind-Sat,
}
use asyn_log_system_cloud_st.Base.Integers.{ℤ}
use asyn_log_system_cloud_st.Store.Platform.{Json}
use asyn_log_system_cloud_st.Log.Buffer.Growth.{IsConfig}
use asyn_log_system_cloud_st.Log.Settings.{
  JsonData, buffer_config, is_not_positive, require_unsigned, require_positive, require_address,
  require_port, read_members, is_valid, json_data,
}

-- The numbers fit their types, and the ones that have to be positive are.
pub record IsChecked (d : JsonData) : Type 0 where
  pub buffers : IsConfig (buffer_config d)
  pub has_threads : 0 < d.thread_count
  pub has_queue : 0 < d.backup_queue_size
  pub flush_mode : d.flush_log ≤ 2
  pub has_address : d.backup_addr ≢ []
  pub port_range : (0 < d.backup_port) × (d.backup_port ≤ 65535)
  pub connect_positive : is_not_positive d.backup_connect_timeout_ms ≡ false
  pub send_positive : is_not_positive d.backup_send_timeout_ms ≡ false
  pub retries_positive : is_not_positive d.backup_retries ≡ false

valid_lem :
    (j : Json) (d : JsonData)
    → is_valid j d ≡ true
    → (0 < d.buffer_size)
      × (0 < d.linear_growth)
      × (0 < d.thread_count)
      × (0 < d.backup_queue_size)
      × (d.buffer_size ≤ d.threshold)
      × (d.flush_log ≤ 2)
unfolding is_valid
valid_lem j d h = ground arith

abbrev HasMembers : JsonData → Type 0
HasMembers d =
    IsU64 d.threshold
    × IsU64 d.linear_growth
    × (d.backup_addr ≢ [])
    × ((0 < d.backup_port) × (d.backup_port ≤ 65535))
    × (is_not_positive d.backup_connect_timeout_ms ≡ false)
    × (is_not_positive d.backup_send_timeout_ms ≡ false)
    × (is_not_positive d.backup_retries ≡ false)

module _ (j : Json) (root : j.Value) where
  unsigned_lem : (name : Bytes) (n : ℕ) → require_unsigned j root name ≡ some n → IsU64 n
  unfolding require_unsigned
  unsigned_lem name n e = ground arith

  positive_lem :
      (name : Bytes) (n : ℤ) → require_positive j root name ≡ some n → is_not_positive n ≡ false
  unfolding require_positive
  positive_lem name n e = ground arith

  address_lem : (a : Bytes) → require_address j root ≡ some a → a ≢ []
  unfolding require_address
  address_lem a e = ground arith

  port_lem : (n : ℕ) → require_port j root ≡ some n → (0 < n) × (n ≤ 65535)
  unfolding require_port
  port_lem n e = ground arith

  members-Sat : Sat HasMembers (read_members j root)
  unfolding read_members
  members-Sat = bind-Sat HasMembers _ _ (λ buffer_size e1. bind-Sat HasMembers _ _ (λ threshold e2.
      bind-Sat HasMembers _ _ (λ growth e3. bind-Sat HasMembers _ _ (λ flush_log e4.
        bind-Sat HasMembers _ _ (λ thread_count e5. bind-Sat HasMembers _ _ (λ queue_size e6.
          bind-Sat HasMembers _ _ (λ address e7. bind-Sat HasMembers _ _ (λ port e8.
            bind-Sat HasMembers _ _ (λ connect e9. bind-Sat HasMembers _ _ (λ send f1.
              bind-Sat HasMembers _ _ (λ retries f2. bind-Sat HasMembers _ _ (λ enabled f3.
                bind-Sat HasMembers _ _ (λ token f4. (
                  unsigned_lem (codes "threshold") threshold e2,
                  unsigned_lem (codes "linear_growth") growth e3,
                  address_lem address e7,
                  port_lem port e8,
                  positive_lem (codes "backup_connect_timeout_ms") connect e9,
                  positive_lem (codes "backup_send_timeout_ms") send f1,
                  positive_lem (codes "backup_retries") retries f2,
                ))))))))))))))

read_members-HasMembers :
    (j : Json) (root : j.Value) (d : JsonData)
    → (if j.is_object root then read_members j root else none) ≡ some d
    → HasMembers d
read_members-HasMembers j root d e = elim (Bool-cases (j.is_object root)) [
  | inr o ↦ cc
  | inl o ↦
      let found : read_members j root ≡ some d = ground (arith, e) in
      subst (Sat HasMembers) found (members-Sat j root)
]

json_data-Sat : (j : Json) (content : Option Bytes) → Sat IsChecked (json_data j content)
unfolding json_data
json_data-Sat j content = bind-Sat IsChecked _ _ (λ body b. bind-Sat IsChecked _ _ (λ root r.
    bind-Sat IsChecked _ _ (λ d m. elim (Bool-cases (is_valid j d)) [
      | inr v ↦ rw v tt
      | inl v ↦
          let (size, growth, threads, queue, ordered, mode) = valid_lem j d v in
          let (t, g, address, port, connect, send, retries) = read_members-HasMembers j root d m in
          rw v (record {
            buffers = record {
              has_size = size;
              has_growth = growth;
              ordered = ordered;
              threshold_fits = t;
              growth_fits = g;
            };
            has_threads = threads;
            has_queue = queue;
            flush_mode = mode;
            has_address = address;
            port_range = port;
            connect_positive = connect;
            send_positive = send;
            retries_positive = retries;
          })
    ])))

-- Whatever the configuration file holds, a configuration that is accepted has a positive buffer
-- size of at most the threshold, a positive linear growth, both limits within 64 bits, a positive
-- number of threads and queue size, positive times and retries, an address, a port from 1 to 65535
-- and a flush mode of at most 2.
pub json_data-IsChecked :
    (j : Json) (content : Option Bytes) (d : JsonData) → json_data j content ≡ some d → IsChecked d
json_data-IsChecked j content d e = subst (Sat IsChecked) e (json_data-Sat j content)
