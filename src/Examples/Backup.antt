-- ===== src/Examples/Backup.antt =====
-- log_system/logs_code/backlog: the theorems at concrete inputs.
use asyn_log_system_cloud_st.Base.{
  ℕ, zero, suc, ◌≡◌, refl, ◌++◌, true, false, none, some, List, [], ◌∷◌, Bytes, codes, inl, arith,
  All,
}
use asyn_log_system_cloud_st.Base.Calls.{moved, interrupted, IsStart, transfer}
use asyn_log_system_cloud_st.Backup.Writer.{BackupFileWriter, WriteEvents}
use asyn_log_system_cloud_st.Backup.Writer.Shift.{Works}
use asyn_log_system_cloud_st.Backup.Writer.Lines.{IsKept, writes, lines, last_line}
use asyn_log_system_cloud_st.Backup.Writer.Kept.{writes-IsKept}
use asyn_log_system_cloud_st.Backup.Server.{
  Received, chunk, ServerOptions, TcpServer, new_server, count_connection, admit, idle,
  handle_connection,
}
use asyn_log_system_cloud_st.Backup.Server
use asyn_log_system_cloud_st.Backup.Server.Limit.{
  start, next, arrived, admitted, IsLimited, Reach-IsLimited,
}
use asyn_log_system_cloud_st.Backup.Server.Chunks.{handle_stream, handle_connection-handle_stream}
use asyn_log_system_cloud_st.Backup.Client.{
  ConnectEvents, connected, AttemptEvents, attempts, after_send, send_loop, connect_with_timeout,
  payload_of, rounds, poll_loop,
}
use asyn_log_system_cloud_st.Backup.Client
use asyn_log_system_cloud_st.Backup.Client.Delivery.{start-handle_connection}
use asyn_log_system_cloud_st.Backup.Client.Retries.{HasSocket, start_lem}
use asyn_log_system_cloud_st.Examples.Sinks.{ones, slow, slow-Progresses}

abbrev small_writer : BackupFileWriter
small_writer = record { max_size = 3; retained_files = 1 }

abbrev calls : WriteEvents
calls = record {
  size_known = true;
  removes = λ i. true;
  exists_fails = λ i. false;
  rename_fails = λ i. false;
  fopened = true;
  fwrite = slow;
  newline_ok = true;
  flush_ok = true;
  close_ok = true;
}

calls-Works : Works calls
calls-Works = record {
  knows = refl;
  removes = λ i. refl;
  finds = λ i. refl;
  renames = λ i. refl;
  opens = refl;
  writes = slow-Progresses;
  ends = refl;
  flushes = refl;
  closes = refl;
}

-- The third line moves the second one's file to the number 1 and drops the first one's.
abbrev three_lines : List (WriteEvents × Bytes)
three_lines = (calls, codes "ab") ∷ (calls, codes "cd") ∷ (calls, codes "ef") ∷ []

writes-IsKept_example :
    IsKept small_writer 2
      (lines three_lines)
      (last_line [] three_lines)
      (writes small_writer three_lines (λ k. none))
writes-IsKept_example =
    writes-IsKept small_writer 2 (omega arith) three_lines
      ((calls-Works, omega arith), ((calls-Works, omega arith), ((calls-Works, omega arith), tt)))

abbrev one_connection : ServerOptions
one_connection = record {
  port = 80;
  listen_address = codes "127.0.0.1";
  expected_token = codes "x";
  max_connections = 1;
}

abbrev first_client : TcpServer
first_client = admit one_connection true true (count_connection (codes "a") new_server)

Reach-IsLimited_example : IsLimited one_connection first_client
Reach-IsLimited_example =
    Reach-IsLimited one_connection (omega arith) first_client
      (next (next start (arrived (codes "a") refl)) (admitted true true))

abbrev pieces : List Received
pieces = chunk (codes "x\n") ∷ Server.interrupted ∷ chunk (codes "hi") ∷ []

handle_connection-handle_stream_example :
    handle_connection (codes "x") true (codes "a") pieces
    ≡ handle_stream (codes "x") (codes "a") (codes "x\nhi")
handle_connection-handle_stream_example =
    handle_connection-handle_stream (codes "x") (codes "a") pieces (λ e. cc, (tt, (λ e. cc, tt)))

abbrev connects : ConnectEvents
connects = record {
  flags_read = true;
  nonblock_set = true;
  connect = connected;
  polls = [];
  socket_error = none;
  flags_restored = true;
}

-- The first attempt does not connect, the others send two bytes with each call.
abbrev attempt_events : ℕ → AttemptEvents
attempt_events zero = record {
  socket_made = true;
  timeout_set = true;
  connecting = record connects { flags_read = false };
  sends = [];
}
attempt_events (suc n) = record {
  socket_made = true;
  timeout_set = true;
  connecting = connects;
  sends = moved 2 ∷ interrupted ∷ moved 1 ∷ moved 1 ∷ moved 1 ∷ [];
}

sends : Client.start (some ones) true attempt_events (codes "hi") ≡ (true, [] ++ codes "x\nhi" ∷ [])
unfolding Client.start attempts after_send send_loop transfer connect_with_timeout payload_of rounds
    poll_loop
sends = refl

start-handle_connection_example :
    All (IsStart (payload_of (codes "x") (codes "hi"))) []
    × (handle_connection (codes "x") true (codes "a") pieces ≡ some (codes "a hi"))
unfolding payload_of
start-handle_connection_example =
    start-handle_connection ones true attempt_events (codes "hi") [] (codes "x\nhi") (codes "a")
      pieces refl sends (omega arith, tt) (λ e. cc) (omega arith) (λ e. cc, (tt, (λ e. cc, tt)))
      refl

sockets : (j : ℕ) → HasSocket (attempt_events j)
sockets zero = (refl, refl)
sockets (suc j) = (refl, refl)

start_lem_example : (Client.start (some ones) true attempt_events (codes "hi")).0 ≡ true
unfolding payload_of rounds
start_lem_example =
    start_lem ones attempt_events (codes "hi") 1 refl (omega arith) (λ j h. sockets j)
      (
        (refl, refl, refl, inl refl),
        (omega arith, (tt, (omega arith, (omega arith, (omega arith, tt))))),
        omega arith,
      )
