-- ===== src/Backup/Server.antt =====
-- log_system/logs_code/backlog/ServerBackupLog.cpp: TcpServer and main. The accepting thread and
-- the threads of the connections meet only in the counter of active connections and in the
-- callback.
pub mod Chunks
pub mod Limit
use asyn_log_system_cloud_st.Base.{
  ℕ, zero, suc, ◌+◌, ◌^◌, Bool, true, false, not, ◌||◌, Option, none, some, List, [], ◌∷◌, ◌++◌,
  Bytes, codes, bytes_eq, find, length, take, drop, is_empty, ltb, leb, ◌==◌, if◌then◌else◌, add64,
  sub64,
}
use asyn_log_system_cloud_st.Base.Decimal.{from_chars}
use asyn_log_system_cloud_st.Base.Integers.{ℤ}
use asyn_log_system_cloud_st.Log.Settings.{is_not_positive}

-- What one call of recv reports. No byte is the end of the stream.
pub data Received : Type 0 where
  chunk : Bytes → Received
  interrupted : Received
  failed : Received

abbrev pub max_message_size : ℕ
max_message_size = 1048576

-- The loop over recv, on what its calls report; the list ends where the client has closed. `none`
-- is a return without a message.
unfoldable pub receive : List Received → Bytes → Option Bytes
receive [] message = some message
receive (interrupted ∷ events) message = receive events message
receive (failed ∷ events) message = none
receive (chunk bytes ∷ events) message =
    let rest = receive events (message ++ bytes) in
    if is_empty bytes
    then some message
    else if ltb max_message_size (length message + length bytes)
    then none
    else rest

-- The token in front of the message.
unfoldable pub check_token : Bytes → Bytes → Option Bytes
check_token expected message =
    if is_empty expected then some message else elim (find b'\n' message) [
      | none ↦ none
      | some delimiter ↦
          if bytes_eq (take delimiter message) expected
          then some (drop (suc delimiter) message)
          else none
    ]

-- `if (!message.empty()) callback_(client_info + " " + message)`: what the callback gets.
unfoldable pub call_back : Bytes → Bytes → Option Bytes
call_back client_info message =
    if is_empty message then none else some (client_info ++ (b' ' ∷ message))

unfoldable pub token_then_call : Bytes → Bytes → Bytes → Option Bytes
unfolding check_token call_back
token_then_call expected client_info message = elim (check_token expected message) [
  | none ↦ none
  | some rest ↦ call_back client_info rest
]

-- `timeout_set` is whether setsockopt works.
unfoldable pub handle_connection : Bytes → Bool → Bytes → List Received → Option Bytes
unfolding receive token_then_call
handle_connection expected timeout_set client_info events =
    if not timeout_set then none else elim (receive events []) [
      | none ↦ none
      | some message ↦ token_then_call expected client_info message
    ]

-- The arguments of the constructor that it checks and the ones that it keeps.
pub record ServerOptions : Type 0 where
  pub port : ℕ
  pub listen_address : Bytes
  pub expected_token : Bytes
  pub max_connections : ℕ

unfoldable pub accepts_options : Bool → ServerOptions → ℤ → Bool
accepts_options has_callback o receive_timeout_seconds =
    not (not has_callback || ((o.max_connections == 0) || is_not_positive receive_timeout_seconds))

-- The port argument of main.
unfoldable pub parse_port : Bytes → Option ℕ
parse_port text =
    let (value, rest) = from_chars (2 ^ 32) text in
    elim value [
      | none ↦ none
      | some port ↦
          if not (is_empty rest) || ((port == 0) || ltb 65535 port) then none else some port
    ]

-- What main makes of its arguments and of the two variables of the environment: the options and
-- the name of the file. The list leaves out the program's name. `none` is the exit with 2.
unfoldable pub main_options :
    List Bytes → Option Bytes → Option Bytes → Option (ServerOptions × Bytes)
unfolding parse_port
main_options [] token_env file_env = none
main_options (port_text ∷ []) token_env file_env = elim (parse_port port_text) [
  | none ↦ none
  | some port ↦ some (
    record {
      port = port;
      listen_address = codes "127.0.0.1";
      expected_token = elim token_env [ none ↦ [] | some token ↦ token ];
      max_connections = 64;
    },
    elim file_env [ none ↦ codes "./logfile.log" | some file ↦ file ],
  )
]
main_options (port_text ∷ address ∷ []) token_env file_env = elim (parse_port port_text) [
  | none ↦ none
  | some port ↦ some (
    record {
      port = port;
      listen_address = address;
      expected_token = elim token_env [ none ↦ [] | some token ↦ token ];
      max_connections = 64;
    },
    elim file_env [ none ↦ codes "./logfile.log" | some file ↦ file ],
  )
]
main_options (a ∷ b ∷ c ∷ rest) token_env file_env = none

-- Where the accepting thread is: in accept, or between the count of a connection, which read the
-- number before it, and the test of that number.
pub data Accepting : Type 0 where
  idle : Accepting
  counted : ℕ → Bytes → Accepting

-- `running` has a client for each thread of a connection, `messages` what the callback got.
pub record TcpServer : Type 0 where
  pub active_connections : ℕ
  pub accepting : Accepting
  pub running : List Bytes
  pub messages : List Bytes

abbrev pub new_server : TcpServer
new_server = record { active_connections = 0; accepting = idle; running = []; messages = [] }

-- accept returns a connection, which fetch_add counts.
unfoldable pub count_connection : Bytes → TcpServer → TcpServer
count_connection client_info s = record s {
  active_connections = add64 s.active_connections 1;
  accepting = counted s.active_connections client_info;
}

-- A connection is closed again by the accepting thread.
unfoldable pub close_connection : TcpServer → TcpServer
close_connection s = record s {
  active_connections = sub64 s.active_connections 1;
  accepting = idle;
}

unfoldable pub start_thread : Bytes → TcpServer → TcpServer
start_thread client_info s = record s { running = client_info ∷ s.running; accepting = idle }

-- From the test of the limit to the next accept. `named` is whether inet_ntop works, `started`
-- whether the thread could be created.
unfoldable pub admit : ServerOptions → Bool → Bool → TcpServer → TcpServer
unfolding close_connection start_thread
admit o named started s = elim s.accepting [
  | idle ↦ s
  | counted previous_connections client_info ↦
      if leb o.max_connections previous_connections
      then close_connection s
      else if not named
      then close_connection s
      else if not started
      then close_connection s
      else start_thread client_info s
]

abbrev pub remove_at : ℕ → List Bytes → List Bytes
remove_at i [] = []
remove_at zero (x ∷ xs) = xs
remove_at (suc i) (x ∷ xs) = x ∷ remove_at i xs

abbrev optional : Option Bytes → List Bytes
optional none = []
optional (some x) = x ∷ []

-- The thread of a connection runs HandleConnection and ends, and its guard takes off the count.
unfoldable pub finish_connection :
    ServerOptions → Bool → List Received → ℕ → Bytes → TcpServer → TcpServer
unfolding handle_connection
finish_connection o timeout_set events i client_info s = record s {
  active_connections = sub64 s.active_connections 1;
  running = remove_at i s.running;
  messages =
      s.messages ++ optional (handle_connection o.expected_token timeout_set client_info events);
}
