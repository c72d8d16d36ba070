-- ===== src/Service/Start.antt =====
-- src/server/Test.cpp, main, and RunModule of src/server/Service.cpp: how the server starts and
-- ends, as what is made and freed. What the calls report is an argument.
pub mod Clean
use asyn_log_system_cloud_st.Base.{
  ℕ, Bool, true, false, not, ◌||◌, Option, none, some, List, [], ◌∷◌, ◌++◌, Bytes, ltb,
  if◌then◌else◌,
}
use asyn_log_system_cloud_st.Service.Platform.{Settings}

-- What is made and has to be freed: event_base, evhttp, the two signal events, the pool of threads,
-- and the two running loggers: the default one, which the constructor of LoggerManager makes at the
-- first call of GetInstance, and the application's.
pub data Resource : Type 0 where
  base http interrupt_event terminate_event thread_pool default_logger logger : Resource

-- `shut_down` is LoggerManager::Shutdown, which stops both loggers.
pub data Action : Type 0 where
  made freed : Resource → Action
  dispatched shut_down : Action

-- The limits that RunModule sets; of the methods, GET, POST and HEAD.
pub record Limits : Type 0 where
  pub max_headers_size : ℕ
  pub max_body_size : ℕ
  pub timeout : ℕ

unfoldable pub limits_of : Settings → Limits
limits_of s = record { max_headers_size = 65536; max_body_size = s.max_upload_size; timeout = 30 }

-- What the calls of RunModule report.
pub record RunEvents : Type 0 where
  pub base_made : Bool
  pub http_made : Bool
  pub bound : Bool
  pub interrupt_made : Bool
  pub terminate_made : Bool
  pub interrupt_added : Bool
  pub terminate_added : Bool
  pub dispatch_ok : Bool

-- `if (event != nullptr) event_free(event)`.
unfoldable pub free_if : Bool → Resource → List Action
free_if there r = if there then freed r ∷ [] else []

unfoldable pub make_if : Bool → Resource → List Action
make_if there r = if there then made r ∷ [] else []

-- From the signal events on.
unfoldable pub serve_events : RunEvents → Bool × List Action
unfolding free_if make_if
serve_events ev =
    if not ev.interrupt_made
      || (not ev.terminate_made || (not ev.interrupt_added || not ev.terminate_added))
    then (
      false,
      make_if ev.interrupt_made interrupt_event
          ++ (make_if ev.terminate_made terminate_event
              ++ (free_if ev.interrupt_made interrupt_event
                  ++ (free_if ev.terminate_made terminate_event
                      ++ (freed http ∷ freed base ∷ [])))),
    )
    else (
      ev.dispatch_ok,
      made interrupt_event
          ∷ made terminate_event
          ∷ dispatched
          ∷ freed interrupt_event
          ∷ freed terminate_event
          ∷ freed http
          ∷ freed base
          ∷ [],
    )

-- What was done before, put in front.
abbrev after : List Action → Bool × List Action → Bool × List Action
after before (ok, actions) = (ok, before ++ actions)

unfoldable pub run_module : RunEvents → Bool × List Action
unfolding serve_events
run_module ev =
    if not ev.base_made
    then (false, [])
    else if not ev.http_made
    then (false, made base ∷ freed base ∷ [])
    else if not ev.bound
    then (false, made base ∷ made http ∷ freed http ∷ freed base ∷ [])
    else after (made base ∷ made http ∷ []) (serve_events ev)

-- What happens in `main`: whether the configuration is read, the pool, the flusher of the logger
-- and the manager of the loggers are made, the logger is built, AddLogger returns true, and what
-- RunModule's calls report, `none` where making the data manager or the service throws.
pub record MainEvents : Type 0 where
  pub config_read : Bool
  pub pool_made : Bool
  pub flush_made : Bool
  pub manager_made : Bool
  pub logger_built : Bool
  pub logger_added : Bool
  pub run : Option RunEvents

-- The part of `main` behind the registration of the logger, with the handler of exceptions.
unfoldable pub run_server : Option RunEvents → ℕ × List Action
unfolding run_module
run_server none = (1, shut_down ∷ freed thread_pool ∷ [])
run_server (some ev) =
    let (success, actions) = run_module ev in
    (if success then 0 else 1, actions ++ (shut_down ∷ freed thread_pool ∷ []))

-- From `builder.Build()` on: the pool and the manager with its default logger exist. A logger that
-- was built and not added is destroyed before the pool is. The default logger of a manager that is
-- not shut down ends with the program's static objects, behind `main`.
unfoldable pub register_logger : MainEvents → ℕ × List Action
unfolding run_server
register_logger ev =
    if not ev.logger_built
    then (1, freed thread_pool ∷ freed default_logger ∷ [])
    else if not ev.logger_added
    then (1, made logger ∷ freed logger ∷ freed thread_pool ∷ freed default_logger ∷ [])
    else let (code, actions) = run_server ev.run in (code, made logger ∷ actions)

-- The exit code and what was done; `argc` counts the program's name.
unfoldable pub main : ℕ → MainEvents → ℕ × List Action
unfolding register_logger
main argc ev =
    if ltb 2 argc
    then (2, [])
    else if not ev.config_read
    then (1, [])
    else if not ev.pool_made
    then (1, [])
    else if not ev.flush_made
    then (1, made thread_pool ∷ freed thread_pool ∷ [])
    else if not ev.manager_made
    then (1, made thread_pool ∷ freed thread_pool ∷ [])
    else let (code, actions) = register_logger ev in
      (code, made thread_pool ∷ made default_logger ∷ actions)
