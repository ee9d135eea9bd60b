-- ===== src/TcpServer/Sessions.antt =====
-- The session table of TCPServer.cpp and its counters.
use axon_queue.Prelude.{
  ℕ, ◌+◌, ◌%◌, ◌≡◌, refl, String, Bool, true, List, [], ◌∷◌, arith, Option, none, some, inl, inr,
  Bool-cases, Option-cases, length, length-append, All, dec64, u64_mod,
}
use axon_queue.Task.{Task, TaskPtr}
use axon_queue.Task.Json.{JsonLib, Value, int, uint, text, ids}
use axon_queue.Storage.Database.{RocksDb}
use axon_queue.CliCommands.{World, CliCommands}
use axon_queue.TcpServer.{
  TcpServer, Work, Session, SessionPtr, CommandHandler, new_server, register_command,
  register_default_handlers, start, start_worker_threads, handle_accept, is_active, sweep,
  cleanup_inactive_sessions, update_request_metrics, write_response, queue_work,
}
use axon_queue.TcpServer.Requests.{
  queue_command, handle_request, handle_message, refuse, take_work, do_work, last,
}

-- The counter counts what is left of the list.
sweep-counts :
    (now : ℕ) (objects : SessionPtr → Session) (ps : List SessionPtr) (n k : ℕ)
    → n ≡ (k + length ps) % u64_mod
    → let (kept, m) = sweep now objects ps n in m ≡ (k + length kept) % u64_mod
unfolding sweep
sweep-counts now objects [] n k e = e
sweep-counts now objects (p ∷ ps) n k e = elim (Bool-cases (is_active now (objects p))) [
  | inl on ↦ rw on (omega (arith, sweep-counts now objects ps n (k + 1) (omega (arith, e))))
  | inr off ↦ rw off (sweep-counts now objects ps (dec64 n) k (omega (arith, e)))
]

sweep-active :
    (now : ℕ) (objects : SessionPtr → Session) (ps : List SessionPtr) (n : ℕ)
    → All (λ p. is_active now (objects p) ≡ true) (sweep now objects ps n).0
unfolding sweep
sweep-active now objects [] n = tt
sweep-active now objects (p ∷ ps) n = elim (Bool-cases (is_active now (objects p))) [
  | inl on ↦ rw on (on, sweep-active now objects ps n)
  | inr off ↦ rw off (sweep-active now objects ps (dec64 n))
]

module _ (lib : JsonLib) (rocks : RocksDb lib) (world : World lib) where
  open lib use {Json, Text}

  abbrev Server : Type 0
  Server = TcpServer lib rocks world

  -- What the server does, but for `stop`.
  pub data Step (s : Server) : Server → Type 0 where
    starts : Step s (start lib rocks world s)
    registers :
        (name : String) (handler : CommandHandler Json)
        → Step s (register_command lib rocks world name handler s)
    accepts :
        (error : Bool) (now : ℕ) (p : SessionPtr)
        → Step s (handle_accept lib rocks world error now p s)
    cleans : (now : ℕ) → Step s (cleanup_inactive_sessions lib rocks world now s)
    reads :
        (start_time end_time : ℕ) (p : SessionPtr) (message : Text)
        → Step s (handle_message lib rocks world start_time end_time p message s)
    takes : Step s (take_work lib rocks world s).1
    works :
        (task : TaskPtr) (finished : List (List Task) → List (List Task)) (now end_time : ℕ)
        (w : Work Json)
        → Step s (do_work lib rocks world task finished now end_time w s)

  pub data Runs (s : Server) : Server → Type 0 where
    stays : Runs s s
    goes : {s' s'' : Server} → Runs s s' → Step s' s'' → Runs s s''

  -- The counter is the number of the listed sessions.
  pub IsCounted : Server → Type 0
  IsCounted s = s.active_connections ≡ length s.sessions % u64_mod

  handle_accept-IsCounted :
      (error : Bool) (now : ℕ) (p : SessionPtr) (s : Server)
      → IsCounted s
      → IsCounted (handle_accept lib rocks world error now p s)
  unfolding IsCounted handle_accept
  handle_accept-IsCounted error now p s h = elim (Bool-cases s.running) [
    | inl on ↦ elim (Bool-cases error) [
      | inl failed ↦ rw (on, failed, handle_accept) h
      | inr ok ↦ rw (on, ok, handle_accept) (omega (arith, h, length-append s.sessions (p ∷ [])))
    ]
    | inr off ↦ rw (off, handle_accept) h
  ]

  queue_command-IsCounted :
      (start_time end_time : ℕ) (p : SessionPtr) (request : Json) (v : Option Value) (s : Server)
      → IsCounted s
      → IsCounted (queue_command lib rocks world start_time end_time p request v s)
  unfolding IsCounted queue_command refuse queue_work write_response update_request_metrics
  queue_command-IsCounted start_time end_time p request none s h = h
  queue_command-IsCounted start_time end_time p request (some (text command)) s h = h
  queue_command-IsCounted start_time end_time p request (some (int n)) s h = h
  queue_command-IsCounted start_time end_time p request (some (uint n)) s h = h
  queue_command-IsCounted start_time end_time p request (some (ids ns)) s h = h

  handle_request-IsCounted :
      (start_time end_time : ℕ) (p : SessionPtr) (message : Text) (r : Option Json) (s : Server)
      → IsCounted s
      → IsCounted (handle_request lib rocks world start_time end_time p message r s)
  unfolding IsCounted handle_request refuse write_response update_request_metrics
  handle_request-IsCounted start_time end_time p message none s h = h
  handle_request-IsCounted start_time end_time p message (some request) s h =
      queue_command-IsCounted start_time end_time p request (lib.get "command" request) s h

  handle_message-IsCounted :
      (start_time end_time : ℕ) (p : SessionPtr) (message : Text) (s : Server)
      → IsCounted s
      → IsCounted (handle_message lib rocks world start_time end_time p message s)
  unfolding IsCounted handle_message
  handle_message-IsCounted start_time end_time p message s h =
      elim (Bool-cases (s.objects p).active) [
        | inl on ↦
            rw on (handle_request-IsCounted start_time end_time p message (lib.parse message) _ h)
        | inr off ↦ rw off h
      ]

  take_work-IsCounted : (s : Server) → IsCounted s → IsCounted (take_work lib rocks world s).1
  unfolding IsCounted take_work
  take_work-IsCounted s h = elim (Option-cases (last s.work_queue)) [
    | inl empty ↦ rw (empty, take_work) h
    | inr (w, full) ↦ rw (full, take_work) h
  ]

  do_work-IsCounted :
      (task : TaskPtr) (finished : List (List Task) → List (List Task)) (now end_time : ℕ)
      (w : Work Json) (s : Server)
      → IsCounted s
      → IsCounted (do_work lib rocks world task finished now end_time w s)
  unfolding IsCounted do_work write_response update_request_metrics
  do_work-IsCounted task finished now end_time w s h = h

  Step-IsCounted : {s s' : Server} → Step s s' → IsCounted s → IsCounted s'
  unfolding IsCounted start start_worker_threads register_command cleanup_inactive_sessions
  Step-IsCounted {s} starts h = elim (Bool-cases s.running) [
    | inl on ↦ rw (on, start) h
    | inr off ↦ rw (off, start) h
  ]
  Step-IsCounted (registers name handler) h = h
  Step-IsCounted {s} (accepts error now p) h = handle_accept-IsCounted error now p s h
  Step-IsCounted {s} (cleans now) h =
      omega (arith, sweep-counts now s.objects s.sessions s.active_connections 0 (omega (arith, h)))
  Step-IsCounted {s} (reads start_time end_time p message) h =
      handle_message-IsCounted start_time end_time p message s h
  Step-IsCounted {s} takes h = take_work-IsCounted s h
  Step-IsCounted {s} (works task finished now end_time w) h =
      do_work-IsCounted task finished now end_time w s h

  Runs-kept :
      (commands : CliCommands lib rocks world) {s : Server}
      → Runs (new_server lib rocks world commands) s
      → IsCounted s
  unfolding new_server register_default_handlers register_command IsCounted
  Runs-kept commands stays = refl
  Runs-kept commands (goes r step) = Step-IsCounted step (Runs-kept commands r)

  -- From a new server, as long as it is not stopped: the counter of active connections is the number
  -- of sessions in the table (modulo 2^64), also after cleaning up, which leaves only active
  -- sessions there.
  pub Runs-IsCounted :
      (commands : CliCommands lib rocks world) (s : Server) (now : ℕ)
      → Runs (new_server lib rocks world commands) s
      → let s' = cleanup_inactive_sessions lib rocks world now s in
        IsCounted s × IsCounted s' × All (λ p. is_active now (s'.objects p) ≡ true) s'.sessions
  unfolding cleanup_inactive_sessions
  Runs-IsCounted commands s now r =
      let counted = Runs-kept commands r in
      (
        counted,
        Step-IsCounted {s = s} (cleans now) counted,
        sweep-active now s.objects s.sessions s.active_connections,
      )
