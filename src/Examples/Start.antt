-- ===== src/Examples/Start.antt =====
-- src/server/Test.cpp: a run of the server whose second signal event cannot be added.
use asyn_log_system_cloud_st.Base.{◌≡◌, true, false, some}
use asyn_log_system_cloud_st.Service.Start.{RunEvents, MainEvents, main}
use asyn_log_system_cloud_st.Service.Start.Clean.{act_all, nothing, main-act_all}

abbrev one_event : RunEvents
one_event = record {
  base_made = true;
  http_made = true;
  bound = true;
  interrupt_made = true;
  terminate_made = true;
  interrupt_added = true;
  terminate_added = false;
  dispatch_ok = true;
}

abbrev starts : MainEvents
starts = record {
  config_read = true;
  pool_made = true;
  flush_made = true;
  manager_made = true;
  logger_built = true;
  logger_added = true;
  run = some one_event;
}

main-act_all_example : act_all (main 1 starts).1 nothing ≡ some nothing
main-act_all_example = main-act_all 1 starts
