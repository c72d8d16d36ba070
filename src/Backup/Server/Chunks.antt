-- ===== src/Backup/Server/Chunks.antt =====
-- log_system/logs_code/backlog/ServerBackupLog.cpp, TcpServer::HandleConnection: what reaches the
-- callback does not depend on how the stream is cut into calls of recv.
use asyn_log_system_cloud_st.Base.{
  ◌+◌, ◌≤◌, ◌≡◌, ◌≢◌, refl, ap, ◌∙◌, true, false, Option, none, some, List, [], ◌∷◌, ◌++◌,
  append-nil, append_assoc, Bytes, length, length-append, ltb, if◌then◌else◌, All, Bool-cases, inl,
  inr, arith,
}
use asyn_log_system_cloud_st.Backup.Server.{
  Received, chunk, interrupted, failed, max_message_size, receive, token_then_call,
  handle_connection,
}

-- A call that returns bytes or is to be repeated.
abbrev pub IsRead : Received → Type 0
IsRead (chunk bytes) = bytes ≢ []
IsRead interrupted = Unit
IsRead failed = ⊥

-- The stream that the calls return.
abbrev pub stream : List Received → Bytes
stream [] = []
stream (chunk bytes ∷ events) = bytes ++ stream events
stream (interrupted ∷ events) = stream events
stream (failed ∷ events) = stream events

-- The reference: the whole stream at once.
unfoldable pub handle_stream : Bytes → Bytes → Bytes → Option Bytes
unfolding token_then_call
handle_stream expected client_info text =
    if ltb max_message_size (length text) then none else token_then_call expected client_info text

receive_lem :
    (events : List Received) (message : Bytes)
    → All IsRead events
    → length message ≤ max_message_size
    → receive events message ≡ (
        if ltb max_message_size (length (message ++ stream events))
        then none
        else some (message ++ stream events))
unfolding receive
receive_lem [] message h m = rw (append-nil message) (ground arith)
receive_lem (interrupted ∷ events) message h m = receive_lem events message h.1 m
receive_lem (failed ∷ events) message h m = elim h.0 [ ]
receive_lem (chunk [] ∷ events) message h m = absurd (h.0 refl)
receive_lem (chunk (b ∷ bs) ∷ events) message h m =
    elim (Bool-cases (ltb max_message_size (length message + length (b ∷ bs)))) [
      | inl over ↦ ground (
        arith,
        length-append message ((b ∷ bs) ++ stream events),
        length-append (b ∷ bs) (stream events),
      )
      | inr within ↦
          let rest =
            receive_lem events (message ++ b ∷ bs) h.1
              (omega (arith, length-append message (b ∷ bs), leb_of within)) in
          accepted within
          ∙ (rest
              ∙ ap (λ text. if ltb max_message_size (length text) then none else some text)
                  (append_assoc message (b ∷ bs) (stream events)))
    ]
  where
    leb_of :
        ltb max_message_size (length message + length (b ∷ bs)) ≡ false
        → length message + length (b ∷ bs) ≤ max_message_size
    leb_of e = ground arith

    accepted :
        ltb max_message_size (length message + length (b ∷ bs)) ≡ false
        → receive (chunk (b ∷ bs) ∷ events) message ≡ receive events (message ++ b ∷ bs)
    accepted e = ground arith

-- When the timeout is set and no call of recv fails, what a connection gives to the callback is
-- what the reference computes from the whole stream, whatever pieces recv returns the stream in,
-- and whatever calls are interrupted.
pub handle_connection-handle_stream :
    (expected client_info : Bytes) (events : List Received)
    → All IsRead events
    → handle_connection expected true client_info events
      ≡ handle_stream expected client_info (stream events)
unfolding handle_connection handle_stream
handle_connection-handle_stream expected client_info events h =
    let r = receive_lem events [] h (omega arith) in ground (arith, r)
