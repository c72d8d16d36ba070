-- ===== src/Backup/Client.antt =====
-- log_system/logs_code/backlog/CliBackupLog.hpp: the client that sends a message to the backup
-- server. Sockets are what their calls report; the messages on stderr and errno, which no caller
-- reads, are not modelled.
pub mod Delivery
pub mod Retries
use asyn_log_system_cloud_st.Base.{
  ℕ, zero, suc, Bool, true, false, not, ◌||◌, Option, none, some, List, [], ◌∷◌, ◌++◌, Bytes, take,
  drop, is_empty, ◌==◌, if◌then◌else◌,
}
use asyn_log_system_cloud_st.Base.Calls.{Call, transfer}
use asyn_log_system_cloud_st.Base.Integers.{ℤ, pos, negsuc}
use asyn_log_system_cloud_st.Log.Settings.{JsonData}

pub data ConnectResult : Type 0 where
  connected in_progress refused : ConnectResult

pub data PollResult : Type 0 where
  ready timed_out poll_interrupted poll_failed : PollResult

-- What the calls of ConnectWithTimeout report. `polls` ends where the time limit is reached,
-- `socket_error` is what getsockopt reads, and `none` where it fails.
pub record ConnectEvents : Type 0 where
  pub flags_read : Bool
  pub nonblock_set : Bool
  pub connect : ConnectResult
  pub polls : List PollResult
  pub socket_error : Option ℕ
  pub flags_restored : Bool

unfoldable pub poll_loop : List PollResult → PollResult
poll_loop [] = timed_out
poll_loop (poll_interrupted ∷ polls) = poll_loop polls
poll_loop (ready ∷ polls) = ready
poll_loop (timed_out ∷ polls) = timed_out
poll_loop (poll_failed ∷ polls) = poll_failed

-- Whether the function returns true, and whether the socket is left non-blocking.
abbrev pub Connected : Type 0
Connected = Bool × Bool

-- From getsockopt on.
unfoldable pub after_poll : ConnectEvents → Connected
after_poll ev = elim ev.socket_error [
  | none ↦ (false, not ev.flags_restored)
  | some error ↦ if not ev.flags_restored then (false, true) else (error == 0, false)
]

unfoldable pub connect_with_timeout : ConnectEvents → Connected
unfolding poll_loop after_poll
connect_with_timeout ev =
    if not ev.flags_read || not ev.nonblock_set then (false, false) else elim ev.connect [
      | connected ↦ (ev.flags_restored, not ev.flags_restored)
      | refused ↦ (false, not ev.flags_restored)
      | in_progress ↦ elim (poll_loop ev.polls) [
        | ready ↦ after_poll ev
        | timed_out ↦ (false, not ev.flags_restored)
        | poll_interrupted ↦ (false, not ev.flags_restored)
        | poll_failed ↦ (false, not ev.flags_restored)
      ]
    ]

-- The loop over send, on the bytes sent and those left; the calls end where the send timeout fails
-- one. The result is what was sent and whether that is all.
unfoldable pub send_loop : List Call → Bytes → Bytes → Bytes × Bool
unfolding transfer
send_loop calls done left = transfer calls done left

-- What the calls of one attempt report.
pub record AttemptEvents : Type 0 where
  pub socket_made : Bool
  pub timeout_set : Bool
  pub connecting : ConnectEvents
  pub sends : List Call

-- What is known at the end of Start: its result, and for each connection that was made the bytes
-- that were sent on it before it was shut down.
abbrev pub Outcome : Type 0
Outcome = Bool × List Bytes

-- From the shutdown of an attempt's socket on.
unfoldable pub after_send : Bytes × Bool → Outcome → Outcome
after_send (done, success) rest = if success then (true, done ∷ []) else (rest.0, done ∷ rest.1)

-- The loop over the attempts: how many are left, and the number of the next.
unfoldable pub attempts : (ℕ → AttemptEvents) → Bytes → ℕ → ℕ → Outcome
unfolding connect_with_timeout send_loop after_send
attempts events payload zero attempt = (false, [])
attempts events payload (suc left) attempt =
    let ev = events attempt in
    let rest = attempts events payload left (suc attempt) in
    if not ev.socket_made
    then (false, [])
    else if not ev.timeout_set
    then (false, [])
    else if not (connect_with_timeout ev.connecting).0
    then rest
    else after_send (send_loop ev.sends [] payload) rest

unfoldable pub payload_of : Bytes → Bytes → Bytes
payload_of backup_token message =
    if not (is_empty backup_token) then backup_token ++ b'\n' ∷ message else message

-- How often a loop from 0 up to an int runs.
unfoldable pub rounds : ℤ → ℕ
rounds (pos n) = n
rounds (negsuc n) = 0

-- `g_conf_data` is the configuration, `none` a null pointer; `address_valid` is whether inet_pton
-- accepts the address.
unfoldable pub start : Option JsonData → Bool → (ℕ → AttemptEvents) → Bytes → Outcome
unfolding attempts payload_of rounds
start none address_valid events message = (true, [])
start (some conf) address_valid events message =
    if not conf.backup_enabled
    then (true, [])
    else if not address_valid
    then (false, [])
    else attempts events (payload_of conf.backup_token message) (rounds conf.backup_retries) 0
