-- ===== src/TcpServer/Requests.antt =====
-- `Session::handleMessage` and the workers of TCPServer.cpp. `end_time` is when a request has been
-- answered.
use Prim.Native.String.{◌++◌ as append}
use axon_queue.Prelude.{
  ℕ, String, Option, none, some, List, [], ◌∷◌, if◌then◌else◌, inc64, string_eq, nat_eq,
}
use axon_queue.Task.{Task, TaskPtr}
use axon_queue.Task.Json.{JsonLib, Value, text}
use axon_queue.QueueManager.{wait_ms}
use axon_queue.Storage.Database.{RocksDb}
use axon_queue.CliCommands.{World, error}
use axon_queue.TcpServer.{
  TcpServer, Session, SessionPtr, Work, responds, set_session, update_request_metrics,
  write_response, queue_work,
}
use axon_queue.TcpServer.Dispatch.{execute_command}

-- `back` and `pop_back` of the work queue.
abbrev pub last {ℓ} : {A : Type ℓ} → List A → Option (A × List A)
last [] = none
last (w ∷ ws) = elim (last ws) [ none ↦ some (w, []) | some (v, rest) ↦ some (v, w ∷ rest) ]

module _ (lib : JsonLib) (rocks : RocksDb lib) (world : World lib) where
  open lib use {Json, Text, null, get, get_json, parse}
  open world use {parse_error}

  abbrev Server : Type 0
  Server = TcpServer lib rocks world

  -- The answer to a request that is not queued.
  unfoldable pub refuse :
      (start_time end_time : ℕ) → SessionPtr → (message : String) → Server → Server
  refuse start_time end_time p message s =
      write_response lib rocks world p (responds (error message))
        (update_request_metrics lib rocks world (wait_ms end_time start_time) s)

  -- `request.value("params", json::object())`, for parameters that are an object.
  abbrev params_of : Json → Json
  params_of request = elim (get_json "params" request) [ none ↦ null | some params ↦ params ]

  abbrev noted : (now : ℕ) → Session → Session
  noted now session = record session {
    request_count = inc64 session.request_count;
    last_activity = now;
  }

  -- Given the member "command" of a request.
  unfoldable pub queue_command :
      (start_time end_time : ℕ) → SessionPtr → Json → Option Value → Server → Server
  unfolding refuse
  queue_command start_time end_time p request (some (text command)) s =
      queue_work lib rocks world
        (record {
          session = p;
          command = command;
          params = params_of request;
          start_time = start_time;
        })
        s
  queue_command start_time end_time p request _ s =
      refuse start_time end_time p "Invalid request format - missing command" s

  -- Given the parsed message.
  unfoldable pub handle_request :
      (start_time end_time : ℕ) → SessionPtr → Text → Option Json → Server → Server
  unfolding refuse queue_command
  handle_request start_time end_time p message none s =
      refuse start_time end_time p (append "Error parsing request: " (parse_error message)) s
  handle_request start_time end_time p message (some request) s =
      queue_command start_time end_time p request (get "command" request) s

  unfoldable pub handle_message : (start_time end_time : ℕ) → SessionPtr → Text → Server → Server
  unfolding handle_request
  handle_message start_time end_time p message s =
      if (s.objects p).active
      then (let s₁ = record s {
        objects = set_session p (noted start_time (s.objects p)) s.objects;
      } in
          handle_request start_time end_time p message (parse message) s₁)
      else s

  module _ (p : TaskPtr) (finished : List (List Task) → List (List Task)) where
    -- The queued function.
    unfoldable pub do_work : (now end_time : ℕ) → Work Json → Server → Server
    do_work now end_time w s =
        let (reply, c) = execute_command lib rocks world now p finished w.command w.params s in
        write_response lib rocks world w.session reply (
          update_request_metrics lib rocks world (wait_ms end_time w.start_time)
            (record s { cli_commands = c }))

  -- What a worker of `workerThreadFunction` does under the lock, when it does not wait any more. It
  -- does the work that it took, if it took one, after it has released the lock.
  unfoldable pub take_work : Server → Option (Work Json) × Server
  take_work s = elim (last s.work_queue) [
    | none ↦ (none, s)
    | some (w, rest) ↦ (some w, record s { work_queue = rest })
  ]
