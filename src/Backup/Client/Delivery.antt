-- ===== src/Backup/Client/Delivery.antt =====
-- log_system/logs_code/backlog/CliBackupLog.hpp with ServerBackupLog.cpp: a message that the client
-- reports as sent reaches the callback of the server.
use asyn_log_system_cloud_st.Base.{
  ℕ, zero, suc, ◌≤◌, ◌≡◌, ◌≢◌, ◌⊎◌, refl, sym, ap, subst, ◌∙◌, Bool, true, false, some, List, [],
  ◌∷◌, ◌++◌, append-nil, Bytes, bytes_eq_refl, find-append, Lacks, length, take, take-append,
  drop-append, All, Bool-cases, inl, inr, arith,
}
use asyn_log_system_cloud_st.Base.Calls.{IsStart, IsMoved, transfer-IsMoved}
use asyn_log_system_cloud_st.Log.Settings.{JsonData}
use asyn_log_system_cloud_st.Backup.Server.{
  Received, max_message_size, check_token, call_back, token_then_call, handle_connection,
}
use asyn_log_system_cloud_st.Backup.Server.Chunks.{
  IsRead, stream, handle_stream, handle_connection-handle_stream,
}
use asyn_log_system_cloud_st.Backup.Client.{
  send_loop, AttemptEvents, Outcome, after_send, attempts, payload_of, rounds, start,
}

-- A successful run ends with a connection that got the whole payload; the ones before it got a
-- start of it.
abbrev pub Delivers : Bytes → List Bytes → Type 0
Delivers payload streams =
    (front : List Bytes) × (streams ≡ front ++ payload ∷ []) × All (IsStart payload) front

abbrev IsDelivered : Bytes → Outcome → Type 0
IsDelivered payload outcome = outcome.0 ≡ true → Delivers payload outcome.1

after_send-IsDelivered :
    (payload : Bytes) (result : Bytes × Bool) (rest : Outcome)
    → IsMoved payload result
    → IsDelivered payload rest
    → IsDelivered payload (after_send result rest)
unfolding after_send
after_send-IsDelivered payload (done, true) rest s d h =
    ([], ap (λ x. x ∷ []) (s.complete refl), tt)
after_send-IsDelivered payload (done, false) rest s d h =
    let (front, e, starts) = d h in (done ∷ front, ap (λ x. done ∷ x) e, (s.begins, starts))

-- An attempt: it ends the run, does not connect, or sends.
attempts_cases :
    (events : ℕ → AttemptEvents) (payload : Bytes) (left attempt : ℕ)
    → (attempts events payload (suc left) attempt ≡ (false, []))
      ⊎ ((attempts events payload (suc left) attempt ≡ attempts events payload left (suc attempt))
          ⊎ (attempts events payload (suc left) attempt
              ≡ after_send
                  (send_loop (events attempt).sends [] payload)
                  (attempts events payload left (suc attempt))))
unfolding attempts
attempts_cases events payload left attempt = ground arith

attempts-IsDelivered :
    (events : ℕ → AttemptEvents) (payload : Bytes) (left attempt : ℕ)
    → IsDelivered payload (attempts events payload left attempt)
unfolding attempts send_loop
attempts-IsDelivered events payload zero attempt = λ h. absurd cc
attempts-IsDelivered events payload (suc left) attempt =
    let rest = attempts-IsDelivered events payload left (suc attempt) in
    elim (attempts_cases events payload left attempt) [
      | inl e ↦ rw e (λ h. absurd cc)
      | inr (inl e) ↦ rw e rest
      | inr (inr e) ↦ rw e (
          after_send-IsDelivered payload _ _
            (transfer-IsMoved (events attempt).sends payload [] payload refl) rest)
    ]

cut_left : (xs ys : Bytes) → take (length xs) (xs ++ ys) ≡ xs
cut_left xs ys = take-append (length xs) 0 xs ys (omega arith) ∙ append-nil xs

-- The server takes the message out of the payload.
token_then_call-payload_of :
    (token client_info message : Bytes)
    → Lacks b'\n' token
    → message ≢ []
    → token_then_call token client_info (payload_of token message)
      ≡ some (client_info ++ b' ' ∷ message)
unfolding token_then_call check_token call_back payload_of
token_then_call-payload_of token client_info [] l n = absurd (n refl)
token_then_call-payload_of [] client_info (m ∷ ms) l n = refl
token_then_call-payload_of (t ∷ ts) client_info (m ∷ ms) l n = ground (
  arith,
  find-append b'\n' (t ∷ ts) (m ∷ ms) l,
  cut_left (t ∷ ts) (b'\n' ∷ m ∷ ms),
  drop-append (suc (length (t ∷ ts))) 1 (t ∷ ts) (b'\n' ∷ m ∷ ms) (omega arith),
  bytes_eq_refl (t ∷ ts),
)

enabled_lem :
    (conf : JsonData) (address_valid : Bool) (events : ℕ → AttemptEvents) (message : Bytes)
    (streams : List Bytes)
    → conf.backup_enabled ≡ true
    → start (some conf) address_valid events message ≡ (true, streams)
    → Delivers (payload_of conf.backup_token message) streams
unfolding start
enabled_lem conf address_valid events message streams enabled e = elim (Bool-cases address_valid) [
  | inr invalid ↦ absurd (ground (arith, e, invalid))
  | inl valid ↦
      let payload = payload_of conf.backup_token message in
      let outcome = attempts events payload (rounds conf.backup_retries) 0 in
      let same : outcome ≡ (true, streams) = ground (arith, e, valid) in
      subst (Delivers payload) (ap (λ x. x.1) same)
        (attempts-IsDelivered events payload (rounds conf.backup_retries) 0 (ap (λ x. x.0) same))
]

last_lem :
    {A : Type 0} (xs ys : List A) (x y : A) → xs ++ x ∷ [] ≡ ys ++ y ∷ [] → (xs ≡ ys) × (x ≡ y)
last_lem [] [] x y e = (refl, cc)
last_lem [] (b ∷ []) x y e = cc
last_lem [] (b ∷ c ∷ ys) x y e = cc
last_lem (a ∷ []) [] x y e = cc
last_lem (a ∷ c ∷ xs) [] x y e = cc
last_lem (a ∷ xs) (b ∷ ys) x y e =
    let tails : xs ++ x ∷ [] ≡ ys ++ y ∷ [] = cc in
    let (same, lasts) = last_lem xs ys x y tails in (cc, lasts)

handle_payload :
    (token client_info message : Bytes) (received : List Received)
    → Lacks b'\n' token
    → message ≢ []
    → length (payload_of token message) ≤ max_message_size
    → All IsRead received
    → stream received ≡ payload_of token message
    → handle_connection token true client_info received ≡ some (client_info ++ b' ' ∷ message)
unfolding handle_stream
handle_payload token client_info message received lacks n fits reads same =
    handle_connection-handle_stream token client_info received reads
    ∙ (ap (handle_stream token client_info) same
        ∙ (within ∙ token_then_call-payload_of token client_info message lacks n))
  where
    within :
        handle_stream token client_info (payload_of token message)
        ≡ token_then_call token client_info (payload_of token message)
    within = ground (arith, fits)

-- Client and server together. When backups are enabled and Start returns true after the
-- connections `front` and `last`, the ones in `front` carried a start of the payload each. If the
-- token has no newline, the message is not empty and the payload is within the server's maximum,
-- then a server with the same token that sets its timeout and receives the bytes of `last` without
-- a failed call, in whatever pieces, gives exactly the message, behind the client's address and a
-- space, to its callback.
pub start-handle_connection :
    (conf : JsonData) (address_valid : Bool) (events : ℕ → AttemptEvents) (message : Bytes)
    (front : List Bytes) (last client_info : Bytes) (received : List Received)
    → conf.backup_enabled ≡ true
    → start (some conf) address_valid events message ≡ (true, front ++ last ∷ [])
    → Lacks b'\n' conf.backup_token
    → message ≢ []
    → length (payload_of conf.backup_token message) ≤ max_message_size
    → All IsRead received
    → stream received ≡ last
    → All (IsStart (payload_of conf.backup_token message)) front
      × (handle_connection conf.backup_token true client_info received
          ≡ some (client_info ++ b' ' ∷ message))
start-handle_connection conf address_valid events message front last client_info received enabled e
      lacks n fits reads same =
    let payload = payload_of conf.backup_token message in
    let (starts, split, begin) =
      enabled_lem conf address_valid events message (front ++ last ∷ []) enabled e in
    let (fronts, lasts) = last_lem front starts last payload split in
    (
      subst (All (IsStart payload)) (sym fronts) begin,
      handle_payload conf.backup_token client_info message received lacks n fits reads
          (same ∙ lasts),
    )
