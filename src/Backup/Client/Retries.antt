-- ===== src/Backup/Client/Retries.antt =====
-- log_system/logs_code/backlog/CliBackupLog.hpp: a message is sent when one attempt gets through.
use asyn_log_system_cloud_st.Base.{
  ℕ, Bool, subst, zero, suc, ◌+◌, ◌≤◌, ◌<◌, ◌≡◌, ◌⊎◌, refl, ap, ◌∙◌, true, false, some, List, [],
  Bytes, length, ◌==◌, All, Bool-cases, inl, inr, arith,
}
use asyn_log_system_cloud_st.Base.Calls.{Call, Gets, moving, transfer_lem}
use asyn_log_system_cloud_st.Log.Settings.{JsonData}
use asyn_log_system_cloud_st.Backup.Client.{
  ConnectEvents, connected, in_progress, ready, poll_loop, after_poll, connect_with_timeout,
  send_loop, AttemptEvents, Outcome, after_send, attempts, payload_of, rounds, start,
}

-- A connection that is there at once, or for which poll reports no error in time.
abbrev pub Connects : ConnectEvents → Type 0
Connects ev =
    (ev.flags_read ≡ true)
    × (ev.nonblock_set ≡ true)
    × (ev.flags_restored ≡ true)
    × ((ev.connect ≡ connected)
        ⊎ ((ev.connect ≡ in_progress) × (poll_loop ev.polls ≡ ready) × (ev.socket_error ≡ some 0)))

connects_lem : (ev : ConnectEvents) → Connects ev → connect_with_timeout ev ≡ (true, false)
unfolding connect_with_timeout after_poll
connects_lem ev (f, n, r, inl c) = ground arith
connects_lem ev (f, n, r, inr (c, p, s)) = ground arith

-- The socket of an attempt can be made and set up.
abbrev pub HasSocket : AttemptEvents → Type 0
HasSocket ev = (ev.socket_made ≡ true) × (ev.timeout_set ≡ true)

-- An attempt that connects, and whose calls of send are enough for a payload of `size` bytes.
abbrev pub GetsThrough : ℕ → AttemptEvents → Type 0
GetsThrough size ev = Connects ev.connecting × All Gets ev.sends × (size ≤ moving ev.sends)

after_send-true :
    (result : Bytes × Bool) (rest : Outcome)
    → (result.1 ≡ true) ⊎ (rest.0 ≡ true)
    → (after_send result rest).0 ≡ true
unfolding after_send
after_send-true (done, true) rest h = refl
after_send-true (done, false) rest (inl e) = absurd cc
after_send-true (done, false) rest (inr e) = e

module _ (events : ℕ → AttemptEvents) (payload : Bytes) where
  sends_complete :
      (calls : List Call)
      → All Gets calls
      → length payload ≤ moving calls
      → (send_loop calls [] payload).1 ≡ true
  unfolding send_loop
  sends_complete calls g n = ap (λ x. x.1) (transfer_lem calls payload g n)

  -- An attempt with a socket goes on to the next, or sends.
  socket_cases :
      (left attempt : ℕ)
      → HasSocket (events attempt)
      → (attempts events payload (suc left) attempt ≡ attempts events payload left (suc attempt))
        ⊎ (attempts events payload (suc left) attempt
            ≡ after_send
                (send_loop (events attempt).sends [] payload)
                (attempts events payload left (suc attempt)))
  unfolding attempts
  socket_cases left attempt h = ground arith

  through_lem :
      (left attempt : ℕ)
      → HasSocket (events attempt)
      → Connects (events attempt).connecting
      → attempts events payload (suc left) attempt
        ≡ after_send
            (send_loop (events attempt).sends [] payload)
            (attempts events payload left (suc attempt))
  unfolding attempts
  through_lem left attempt h c = ground (arith, connects_lem (events attempt).connecting c)

  attempts_lem :
      (target left attempt : ℕ)
      → attempt ≤ target
      → target < attempt + left
      → ((j : ℕ) → j ≤ target → HasSocket (events j))
      → GetsThrough (length payload) (events target)
      → (attempts events payload left attempt).0 ≡ true
  attempts_lem target zero attempt h k sockets through = absurd (omega arith)
  attempts_lem target (suc left) attempt h k sockets (c, gets, enough) =
      elim (Bool-cases (attempt == target)) [
        | inl e ↦
            let same : target ≡ attempt = ground arith in
            at_target (subst (λ t. Connects (events t).connecting) same c)
              (subst (λ t. All Gets (events t).sends) same gets)
              (subst (λ t. length payload ≤ moving (events t).sends) same enough)
        | inr e ↦
            let next =
              attempts_lem target left (suc attempt) (ground arith) (omega arith) sockets
                (c, gets, enough) in
            elim (socket_cases left attempt (sockets attempt h)) [
              | inl on ↦ ap (λ x. x.0) on ∙ next
              | inr sends ↦ ap (λ x. x.0) sends ∙ after_send-true _ _ (inr next)
            ]
      ]
    where
      at_target :
          Connects (events attempt).connecting
          → All Gets (events attempt).sends
          → length payload ≤ moving (events attempt).sends
          → (attempts events payload (suc left) attempt).0 ≡ true
      at_target c g n =
          ap (λ x. x.0) (through_lem left attempt (sockets attempt h) c)
          ∙ after_send-true _ _ (inl (sends_complete (events attempt).sends g n))

-- If backups are enabled, the address is valid and one of the configured number of attempts gets
-- through, then Start returns true, as long as the attempts up to it could make their sockets: an
-- attempt that cannot connect or whose send fails midway is followed by the next.
pub start_lem :
    (conf : JsonData) (events : ℕ → AttemptEvents) (message : Bytes) (target : ℕ)
    → conf.backup_enabled ≡ true
    → target < rounds conf.backup_retries
    → ((j : ℕ) → j ≤ target → HasSocket (events j))
    → GetsThrough (length (payload_of conf.backup_token message)) (events target)
    → (start (some conf) true events message).0 ≡ true
unfolding start
start_lem conf events message target enabled within sockets through =
    let result =
      attempts_lem events (payload_of conf.backup_token message) target (rounds conf.backup_retries)
        0 (omega arith) (omega (arith, within)) sockets through in
    ground (arith, result)
