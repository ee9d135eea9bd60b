-- ===== src/TcpServer.antt =====
-- src/network/TCPServer.cpp and include/network/TCPServer.hpp: sessions, the work queue, its workers
-- and the counters. Sockets (boost::asio) are outside: a message that has been read is an argument,
-- and a response whose writing begins is put into `sent`. A session is an address.
pub mod Dispatch
pub mod Framing
pub mod Requests
pub mod Sessions
pub mod Workers
use axon_queue.Prelude.{
  ℕ, ◌+◌, ◌-◌, ◌*◌, ◌^◌, ◌%◌, String, Bool, true, false, ◌&&◌, Option, none, some, List, [], ◌∷◌,
  ◌++◌, ◌==◌, nat_eq, string_eq, if◌then◌else◌, ltb, inc64, dec64, add64,
}
use axon_queue.Prelude.Dict.{Dict}
use axon_queue.Prelude.Dict
use axon_queue.Task.Json.{JsonLib}
use axon_queue.QueueManager.Access.{Metric}
use axon_queue.Storage.Database.{RocksDb}
use axon_queue.CliCommands.{World, Response, CliCommands}

abbrev pub SessionPtr : Type 0
SessionPtr = ℕ

pub record Session : Type 0 where
  pub active : Bool
  pub request_count : ℕ
  pub last_activity : ℕ

-- What a command answers: a response, or the metrics.
pub data Reply {ℓ} (Json : Type ℓ) : Type ℓ where
  responds : Response Json → Reply Json
  reports : Dict String Metric → Reply Json

-- A registered handler: the one of `registerDefaultHandlers`, or a function that returns or throws.
pub data Outcome {ℓ} (Json : Type ℓ) : Type ℓ where
  returns : Reply Json → Outcome Json
  throws : String → Outcome Json

pub data CommandHandler {ℓ} (Json : Type ℓ) : Type ℓ where
  gets_metrics : CommandHandler Json
  calls : (Json → Outcome Json) → CommandHandler Json

-- The function object that `handleMessage` queues.
pub record Work {ℓ} (Json : Type ℓ) : Type ℓ where
  pub session : SessionPtr
  pub command : String
  pub params : Json
  pub start_time : ℕ

abbrev pub worker_thread_count : ℕ
worker_thread_count = 32

-- An assignment to a session object.
abbrev pub set_session : SessionPtr → Session → (SessionPtr → Session) → SessionPtr → Session
set_session p session objects q = if p == q then session else objects q

abbrev stop_all : List SessionPtr → (SessionPtr → Session) → SessionPtr → Session
stop_all [] objects = objects
stop_all (p ∷ ps) objects =
    stop_all ps (set_session p (record (objects p) { active = false }) objects)

-- `Session::isActive`: five minutes of the steady clock, in nanoseconds.
unfoldable pub is_active : (now : ℕ) → Session → Bool
is_active now session = session.active && ltb (now - session.last_activity) (5 * 60 * 10 ^ 9)

-- The loop of `cleanupInactiveSessions`, with the counter.
unfoldable pub sweep :
    (now : ℕ) → (SessionPtr → Session) → List SessionPtr → ℕ → List SessionPtr × ℕ
unfolding is_active
sweep now objects [] n = ([], n)
sweep now objects (p ∷ ps) n =
    if is_active now (objects p)
    then (let (kept, m) = sweep now objects ps n in (p ∷ kept, m))
    else sweep now objects ps (dec64 n)

module _ (lib : JsonLib) (rocks : RocksDb lib) (world : World lib) where
  open lib use {Json}

  pub record TcpServer : Type 0 where
    pub running : Bool
    pub sessions : List SessionPtr
    pub objects : SessionPtr → Session
    pub command_handlers : Dict String (CommandHandler Json)
    pub cli_commands : CliCommands lib rocks world
    pub total_connections : ℕ
    pub active_connections : ℕ
    pub total_requests : ℕ
    pub request_errors : ℕ
    pub total_response_time_ms : ℕ
    pub worker_threads : ℕ
    pub work_queue : List (Work Json)
    pub workers_running : Bool
    pub sent : List (SessionPtr × Reply Json)

  unfoldable pub register_command : String → CommandHandler Json → TcpServer → TcpServer
  register_command name handler s = record s {
    command_handlers = Dict.put name handler s.command_handlers;
  }

  unfoldable pub register_default_handlers : TcpServer → TcpServer
  unfolding register_command
  register_default_handlers s = register_command "metrics" gets_metrics s

  -- The constructor.
  unfoldable pub new_server : CliCommands lib rocks world → TcpServer
  unfolding register_default_handlers
  new_server commands = register_default_handlers (record {
    running = false;
    sessions = [];
    objects = λ p. record { active = false; request_count = 0; last_activity = 0 };
    command_handlers = [];
    cli_commands = commands;
    total_connections = 0;
    active_connections = 0;
    total_requests = 0;
    request_errors = 0;
    total_response_time_ms = 0;
    worker_threads = 0;
    work_queue = [];
    workers_running = false;
    sent = [];
  })

  unfoldable pub start_worker_threads : TcpServer → TcpServer
  start_worker_threads s = record s {
    workers_running = true;
    worker_threads = s.worker_threads + worker_thread_count;
  }

  unfoldable pub stop_worker_threads : TcpServer → TcpServer
  stop_worker_threads s = record s { workers_running = false; work_queue = []; worker_threads = 0 }

  unfoldable pub start : TcpServer → TcpServer
  unfolding start_worker_threads
  start s = if s.running then s else start_worker_threads (record s { running = true })

  -- The counter of active connections stays.
  unfoldable pub stop : TcpServer → TcpServer
  unfolding stop_worker_threads
  stop s =
      if s.running
      then stop_worker_threads
          (record s { running = false; sessions = []; objects = stop_all s.sessions s.objects })
      else s

  -- The new session is at an address that no session of the table has.
  unfoldable pub handle_accept : (error : Bool) → (now : ℕ) → SessionPtr → TcpServer → TcpServer
  handle_accept error now p s =
      if s.running
      then (if error then s else record s {
        objects =
            set_session p (record { active = true; request_count = 0; last_activity = now })
              s.objects;
        sessions = s.sessions ++ p ∷ [];
        active_connections = inc64 s.active_connections;
        total_connections = inc64 s.total_connections;
      })
      else s

  unfoldable pub cleanup_inactive_sessions : (now : ℕ) → TcpServer → TcpServer
  unfolding sweep
  cleanup_inactive_sessions now s =
      let (sessions, n) = sweep now s.objects s.sessions s.active_connections in
      record s { sessions = sessions; active_connections = n }

  unfoldable pub update_request_metrics : ℕ → TcpServer → TcpServer
  update_request_metrics response_time_ms s = record s {
    total_requests = inc64 s.total_requests;
    total_response_time_ms = add64 s.total_response_time_ms response_time_ms;
  }

  -- `Session::writeResponse`.
  unfoldable pub write_response : SessionPtr → Reply Json → TcpServer → TcpServer
  write_response p response s = record s {
    sent = if (s.objects p).active then s.sent ++ (p, response) ∷ [] else s.sent;
  }

  unfoldable pub queue_work : Work Json → TcpServer → TcpServer
  queue_work work s = record s { work_queue = s.work_queue ++ work ∷ [] }
