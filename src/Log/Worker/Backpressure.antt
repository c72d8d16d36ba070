-- ===== src/Log/Worker/Backpressure.antt =====
-- log_system/logs_code/AsyncWorker.hpp, Push: when a producer waits, and how large the buffer gets.
use asyn_log_system_cloud_st.Log.Buffer.{Buffer, Source, null, Result, err, readable_size}
use asyn_log_system_cloud_st.Log.Buffer
use asyn_log_system_cloud_st.Log.Worker.{Worker}
