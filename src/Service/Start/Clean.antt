-- ===== src/Service/Start/Clean.antt =====
-- src/server/Test.cpp and RunModule of Service.cpp: on every way out everything is freed, in order.
use asyn_log_system_cloud_st.Base.{
  ℕ, ◌≡◌, refl, ap, Bool, true, false, not, ◌||◌, ◌&&◌, Option, none, some, List, [], ◌∷◌, ◌++◌,
  if◌then◌else◌, Option-cases, inl, inr, arith,
}
use asyn_log_system_cloud_st.Service.Start.{
  base, http, interrupt_event, terminate_event, thread_pool, default_logger, logger, Action, made,
  freed, dispatched, shut_down, RunEvents, free_if, make_if, serve_events, run_module, MainEvents,
  run_server, register_logger, main,
}

-- What exists at a time.
pub record Held : Type 0 where
  pub has_base : Bool
  pub has_http : Bool
  pub has_interrupt : Bool
  pub has_terminate : Bool
  pub has_pool : Bool
  pub has_default : Bool
  pub has_logger : Bool

abbrev pub nothing : Held
nothing = record {
  has_base = false;
  has_http = false;
  has_interrupt = false;
  has_terminate = false;
  has_pool = false;
  has_default = false;
  has_logger = false;
}

-- Whether an action is allowed, and what exists behind it. Nothing is made twice or freed twice;
-- the events and the HTTP server need the base, and the loggers need the pool. The
-- default logger alone, where it was not shut down, is freed behind the pool.
abbrev pub act : Action → Held → Option Held
act (made base) h = if h.has_base then none else some (record h { has_base = true })
act (made http) h =
    if h.has_http || not h.has_base then none else some (record h { has_http = true })
act (made interrupt_event) h =
    if h.has_interrupt || not h.has_base then none else some (record h { has_interrupt = true })
act (made terminate_event) h =
    if h.has_terminate || not h.has_base then none else some (record h { has_terminate = true })
act (made thread_pool) h = if h.has_pool then none else some (record h { has_pool = true })
act (made default_logger) h =
    if h.has_default || not h.has_pool then none else some (record h { has_default = true })
act (made logger) h =
    if h.has_logger || (not h.has_default || not h.has_pool)
    then none
    else some (record h { has_logger = true })
act (freed base) h =
    if not h.has_base || (h.has_http || (h.has_interrupt || h.has_terminate))
    then none
    else some (record h { has_base = false })
act (freed http) h = if not h.has_http then none else some (record h { has_http = false })
act (freed interrupt_event) h =
    if not h.has_interrupt then none else some (record h { has_interrupt = false })
act (freed terminate_event) h =
    if not h.has_terminate then none else some (record h { has_terminate = false })
act (freed thread_pool) h =
    if not h.has_pool || h.has_logger then none else some (record h { has_pool = false })
act (freed default_logger) h =
    if not h.has_default || (h.has_pool || h.has_logger)
    then none
    else some (record h { has_default = false })
act (freed logger) h = if not h.has_logger then none else some (record h { has_logger = false })
act shut_down h =
    if not h.has_default || (not h.has_logger || not h.has_pool)
    then none
    else some (record h { has_default = false; has_logger = false })
act dispatched h =
    if h.has_base && (h.has_http && (h.has_interrupt && h.has_terminate)) then some h else none

abbrev pub act_all : List Action → Held → Option Held
act_all [] h = some h
act_all (a ∷ actions) h = elim (act a h) [ none ↦ none | some h' ↦ act_all actions h' ]

-- The pool and the loggers, which run while the server does.
abbrev running : Held
running = record nothing { has_pool = true; has_default = true; has_logger = true }

serve_events-act_all :
    (ev : RunEvents)
    → act_all (serve_events ev).1 (record running { has_base = true; has_http = true })
      ≡ some running
unfolding serve_events make_if free_if
serve_events-act_all ev = ground arith

act_all-append :
    (xs ys : List Action) (h k : Held) → act_all xs h ≡ some k → act_all (xs ++ ys) h ≡ act_all ys k
act_all-append [] ys h k e = let same : h ≡ k = cc in ap (act_all ys) same
act_all-append (x ∷ xs) ys h k e = elim (Option-cases (act x h)) [
  | inl n ↦ absurd (ground (arith, e, n))
  | inr (next, a) ↦
      let rest : act_all xs next ≡ some k = ground (arith, e, a) in
      let joined = act_all-append xs ys next k rest in ground (arith, a, joined)
]

run_module-act_all : (ev : RunEvents) → act_all (run_module ev).1 running ≡ some running
unfolding run_module
run_module-act_all ev = let served = serve_events-act_all ev in ground (arith, served)

run_server-act_all : (run : Option RunEvents) → act_all (run_server run).1 running ≡ some nothing
unfolding run_server
run_server-act_all none = refl
run_server-act_all (some ev) =
    act_all-append (run_module ev).1 (shut_down ∷ freed thread_pool ∷ []) running running
      (run_module-act_all ev)

register_logger-act_all :
    (ev : MainEvents)
    → act_all (register_logger ev).1 (record nothing { has_pool = true; has_default = true })
      ≡ some nothing
unfolding register_logger
register_logger-act_all ev = let served = run_server-act_all ev.run in ground (arith, served)

-- Whatever the calls report, every run of the program frees exactly what it made: nothing twice,
-- and the event base only behind the HTTP server and the events. The thread pool goes only behind
-- the application's logger, and LoggerManager::Shutdown runs only while the pool and both loggers
-- exist. Without a Shutdown the default logger goes behind the pool. The loop is dispatched only
-- while the base, the HTTP server and both events exist.
pub main-act_all : (argc : ℕ) (ev : MainEvents) → act_all (main argc ev).1 nothing ≡ some nothing
unfolding main
main-act_all argc ev = let registered = register_logger-act_all ev in ground (arith, registered)
