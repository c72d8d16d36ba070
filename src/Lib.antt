-- ===== src/Lib.antt =====
-- Verification of an asynchronous logging library (log_system/logs_code) and of the cloud storage
-- server (src/server) that logs through it.
--
-- The server keeps files in two directories, one of them packed, and a table of their metadata in
-- memory with a copy on disk. Its HTTP handlers authenticate a browser by a session cookie, guard
-- changes by a CSRF token, and store, delete, list and send files. The logging library takes
-- messages from many threads into a producer buffer; one worker thread swaps it with a consumer
-- buffer and hands the contents to a callback. A pool of threads sends backups.
--
-- Http.Range is src/server/Range.hpp (ParseUnsigned, ParseRangeHeader). Http.Url is FromHex,
-- UrlDecode and UrlEncode of src/server/Util.hpp.
--
-- Auth.Session, Auth.Limiter and Auth.Cookie are SessionStore, LoginRateLimiter, and Trim with
-- GetCookie of src/server/Service.cpp. Each method holds its mutex throughout, so each is one
-- function on the map it guards. Readings of the clock and random bytes are arguments.
--
-- Store.Info and Store.Manager are StorageInfo and DataManager of src/server/DataManager.hpp and
-- DataManager.cpp. The table and the files are maps; Insert and Delete hold the mutation mutex
-- throughout, so each is one step. Persist writes a temporary file, and renames or removes it.
--
-- Service.Reply, Service.Text, Service.Access, Service.Upload, Service.Remove, Service.Download,
-- Service.Pages and Service.Routes are the rest of src/server/Service.cpp, down from HandleRequest:
-- replies and headers; file names and escapes; Authenticate, ValidateCsrf, Login and Logout; Upload
-- with CommitNoReplace of Util.hpp; Delete; Download with UnCompress; ListFiles; and the routes. A
-- handler takes the state and the request to the state after it and the reply. A request is handled
-- by the one thread of the event loop, so it is one step.
--
-- Log.Buffer is log_system/logs_code/AsyncBuffer.hpp, with the checks of sizes on 64 bits. Log.Worker
-- is AsyncWorker.hpp: a locked section is one step, and so is the callback, in any interleaving with
-- producers and the stop. Log.Pool is ThreadPool.hpp in the same way.
--
-- Log.Sink is WriteAll and RollFileFlush of LogFlush.hpp, on the contents of files. Log.Settings is
-- JsonData of log_system/logs_code/Util.hpp, whose checks are what the growth of Log.Buffer needs.
--
-- Log.Logger is AsyncLogger.hpp with Message.hpp and Level.hpp: the format of a message, the push to
-- the worker, and the backups with their counters; `serialize` is one call with nothing in between.
-- Log.Logger.Steps has the calls of many threads interleaved with Log.Pool: what a thread does to
-- the worker, the pool or a counter is one step, and a backup is Start of Backup.Client. Log.Manager
-- is the table of loggers of Manager.hpp.
--
-- Backup.Client is log_system/logs_code/backlog/CliBackupLog.hpp: the connection with a time limit
-- and the attempts to send a message. Backup.Writer and Backup.Server are ServerBackupLog.cpp: the
-- rotated files, a connection from its first byte to the callback, and the accepting thread beside
-- the threads of connections, whose accesses to the counter are steps in any interleaving.
--
-- Log.FileFlush is the rest of LogFlush.hpp, with the file helpers and FindConfigPath of
-- log_system/logs_code/Util.hpp. Service.Start is RunModule of Service.cpp and main of
-- src/server/Test.cpp, as a list of what they make and free, with the default logger that the
-- manager of the loggers makes.
--
-- Store.FileUtil is FileUtil of src/server/Util.hpp and Service.Config is src/server/Config.hpp. The
-- handlers take a read or a write of a file as one report; Store.FileUtil has the loops behind it.
-- Base.Calls is the loop that the source repeats for write, pread and send.
--
-- The handlers use Auth, Http and Store as the source does: Service.Access calls Auth, the handlers
-- call Store.Manager, and Service.Routes calls the handlers. Log.Worker holds two of Log.Buffer. Base
-- has byte strings, maps with byte strings as keys, decimal numbers and words; Examples has runs.
--
-- Numbers: size_t and uint64_t are natural numbers with their wrap at 2 ^ 64 written out where the
-- source adds or subtracts (Base.Words). A time is a count of nanoseconds. Fuel: the loop of
-- GetCookie gets one round for each byte and one more, since each round moves past a semicolon;
-- Buffer growth gets as many rounds as the size asked for, since each round adds a byte at least
-- where the linear growth is positive;
-- the drain of the log thread gets four rounds, which a stopped worker needs at most; WriteAll gets
-- one round more than there are bytes, since each round writes a byte. The
-- theorems on these loops say that the fuel is enough. The loops of Base.Calls run on the list of
-- what the system calls report, which ends where a call fails.
--
-- Parameters, as none of their code is here: libevent (a request and its headers), OpenSSL (random
-- bytes, PBKDF2, SHA-256, CRYPTO_memcmp), JsonCpp, std::filesystem paths, base64 and bundle, the
-- configuration's values, and what calls of the system report. A report may be any failure; the
-- removal of a file that is there is taken to succeed. What a theorem assumes of the system stands
-- among its hypotheses: how JsonCpp sets members of an object or of null and appends to an array,
-- that it keeps numbers in the range of their type, that mkstemp gives a name that is not in use, that the metadata file is not
-- where stored files lie, for the log sinks that fwrite gets on and that new files are empty, and
-- for the writes of the backup server that the calls work.
--
-- Not modelled: what libevent does while it is dispatched, StdoutFlush, FormatSize and FormatTime
-- (floating point and time zones; parameters), and running out of memory. A vector that would be
-- larger than its max_size throws, in Log.Buffer and in the constructor of Log.Pool, which also has
-- the threads that the system cannot start.
-- Where std::unordered_map leaves the order of its entries open, the model has the order of
-- insertion.
pub mod Base
pub mod Http
pub mod Auth
pub mod Log
pub mod Store
pub mod Service
pub mod Backup
pub mod Examples
