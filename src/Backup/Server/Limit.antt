-- ===== src/Backup/Server/Limit.antt =====
-- log_system/logs_code/backlog/ServerBackupLog.cpp, TcpServer::Run: the limit on connections, under
-- any interleaving of the accepting thread with the threads of the connections.
use asyn_log_system_cloud_st.Base.{
  ℕ, zero, suc, ◌+◌, ◌≤◌, ◌<◌, ◌≡◌, refl, ap, subst, ◌⊎◌, ◌∙◌, Bool, some, List, [], ◌∷◌, Bytes,
  length, IsU64, add64-eq-add, sub64-eq-sub, get_elem?, inl, inr, arith,
}
use asyn_log_system_cloud_st.Backup.Server.{
  Received, ServerOptions, Accepting, idle, counted, TcpServer, new_server, count_connection,
  close_connection, start_thread, admit, remove_at, finish_connection,
}

-- A step of the accepting thread, or the end of a connection's thread.
pub data Step (o : ServerOptions) : TcpServer → TcpServer → Type 0 where
  arrived :
      {s : TcpServer} (client_info : Bytes)
      → s.accepting ≡ idle
      → Step o s (count_connection client_info s)
  admitted : {s : TcpServer} (named started : Bool) → Step o s (admit o named started s)
  finished :
      {s : TcpServer} (timeout_set : Bool) (events : List Received) (i : ℕ) (client_info : Bytes)
      → get_elem? s.running i ≡ some client_info
      → Step o s (finish_connection o timeout_set events i client_info s)

pub data Reach (o : ServerOptions) : TcpServer → Type 0 where
  start : Reach o new_server
  next : {s t : TcpServer} → Reach o s → Step o s t → Reach o t

-- The connection that is counted and has no thread yet, and the number read with its count.
abbrev pub pending : Accepting → ℕ
pending idle = 0
pending (counted previous client_info) = 1

abbrev ReadBefore : Accepting → ℕ → Type 0
ReadBefore idle n = Unit
ReadBefore (counted previous client_info) n = n ≤ previous

-- The count is exact, and the connections are within the limit.
pub record IsLimited (o : ServerOptions) (s : TcpServer) : Type 0 where
  pub exact : s.active_connections ≡ length s.running + pending s.accepting
  pub limited : length s.running ≤ o.max_connections
  pub read_before : ReadBefore s.accepting (length s.running)

length-remove_at :
    (i : ℕ) (xs : List Bytes) (x : Bytes)
    → get_elem? xs i ≡ some x
    → length (remove_at i xs) + 1 ≡ length xs
length-remove_at i [] x e = absurd cc
length-remove_at zero (y ∷ ys) x e = omega arith
length-remove_at (suc i) (y ∷ ys) x e = omega (arith, length-remove_at i ys x e)

ReadBefore-le : (a : Accepting) (n m : ℕ) → n ≤ m → ReadBefore a m → ReadBefore a n
ReadBefore-le idle n m h r = tt
ReadBefore-le (counted previous client_info) n m h r = omega arith

pending_le : (a : Accepting) → pending a ≤ 1
pending_le idle = omega arith
pending_le (counted previous client_info) = omega arith

module _ (o : ServerOptions) (fits : IsU64 (o.max_connections + 1)) where
  arrived-IsLimited :
      (s : TcpServer) (client_info : Bytes)
      → s.accepting ≡ idle
      → IsLimited o s
      → IsLimited o (count_connection client_info s)
  unfolding count_connection
  arrived-IsLimited s client_info e inv =
      let none_pending : pending s.accepting ≡ 0 = ap pending e in
      let small : s.active_connections ≡ length s.running = omega (arith, inv.exact) in
      record {
        exact =
            add64-eq-add s.active_connections 1 (omega (arith, inv.limited, fits))
            ∙ ap (λ n. n + 1) small;
        limited = inv.limited;
        read_before = omega arith;
      }

  -- A connection that was counted is closed, or there is room for it.
  admit_cases :
      (named started : Bool) (s : TcpServer) (previous : ℕ) (client_info : Bytes)
      → s.accepting ≡ counted previous client_info
      → (admit o named started s ≡ close_connection s)
        ⊎ ((previous < o.max_connections) × (admit o named started s ≡ start_thread client_info s))
  unfolding admit
  admit_cases named started s previous client_info e = ground arith

  closed-IsLimited :
      (s : TcpServer) (previous : ℕ) (client_info : Bytes)
      → s.accepting ≡ counted previous client_info
      → IsLimited o s
      → IsLimited o (close_connection s)
  unfolding close_connection
  closed-IsLimited s previous client_info e inv =
      let one_pending : pending s.accepting ≡ 1 = ap pending e in
      record {
        exact =
            sub64-eq-sub s.active_connections 1 (omega (arith, inv.exact, inv.limited, fits))
              (omega (arith, inv.exact))
            ∙ omega (arith, inv.exact);
        limited = inv.limited;
        read_before = tt;
      }

  started-IsLimited :
      (s : TcpServer) (previous : ℕ) (client_info : Bytes)
      → s.accepting ≡ counted previous client_info
      → previous < o.max_connections
      → IsLimited o s
      → IsLimited o (start_thread client_info s)
  unfolding start_thread
  started-IsLimited s previous client_info e room inv =
      let one_pending : pending s.accepting ≡ 1 = ap pending e in
      let before : length s.running ≤ previous =
        subst (λ a. ReadBefore a (length s.running)) e inv.read_before in
      record { exact = omega (arith, inv.exact); limited = omega arith; read_before = tt }

  admitted-IsLimited :
      (s : TcpServer) (named started : Bool) → IsLimited o s → IsLimited o (admit o named started s)
  unfolding admit
  admitted-IsLimited s named started inv = go s.accepting refl
    where
      waits : s.accepting ≡ idle → admit o named started s ≡ s
      waits e = ground arith

      go : (a : Accepting) → s.accepting ≡ a → IsLimited o (admit o named started s)
      go idle e = rw (waits e) inv
      go (counted previous client_info) e =
          elim (admit_cases named started s previous client_info e) [
            | inl closed ↦ rw closed (closed-IsLimited s previous client_info e inv)
            | inr (room, run) ↦ rw run (started-IsLimited s previous client_info e room inv)
          ]

  finished-IsLimited :
      (s : TcpServer) (timeout_set : Bool) (events : List Received) (i : ℕ) (client_info : Bytes)
      → get_elem? s.running i ≡ some client_info
      → IsLimited o s
      → IsLimited o (finish_connection o timeout_set events i client_info s)
  unfolding finish_connection
  finished-IsLimited s timeout_set events i client_info e inv =
      let shorter = length-remove_at i s.running client_info e in
      record {
        exact =
            sub64-eq-sub s.active_connections 1
              (omega (arith, inv.exact, inv.limited, fits, pending_le s.accepting))
              (omega (arith, inv.exact, shorter))
            ∙ omega (arith, inv.exact, shorter);
        limited = omega (arith, shorter, inv.limited);
        read_before =
            ReadBefore-le s.accepting (length (remove_at i s.running)) (length s.running)
              (omega (arith, shorter)) inv.read_before;
      }

  -- If one more than `max_connections` fits in 64 bits, then in every state that the server
  -- reaches, under any interleaving of its threads, at most `max_connections` connections have a
  -- thread, and the counter of active connections is exactly their number, with the one more that
  -- is counted and not yet admitted; so it never wraps.
  pub Reach-IsLimited : (s : TcpServer) → Reach o s → IsLimited o s
  Reach-IsLimited s start = record { exact = refl; limited = omega arith; read_before = tt }
  Reach-IsLimited _ (next {s = s} r (arrived client_info e)) =
      arrived-IsLimited s client_info e (Reach-IsLimited s r)
  Reach-IsLimited _ (next {s = s} r (admitted named started)) =
      admitted-IsLimited s named started (Reach-IsLimited s r)
  Reach-IsLimited _ (next {s = s} r (finished timeout_set events i client_info e)) =
      finished-IsLimited s timeout_set events i client_info e (Reach-IsLimited s r)
