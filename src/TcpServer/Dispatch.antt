-- ===== src/TcpServer/Dispatch.antt =====
-- `executeCommand` and `getMetrics` of TCPServer.cpp. A command may construct a task, at the address
-- `p`, and `finished` is the order in which the threads of list finish.
use Prim.Native.String.{◌++◌ as append}
use axon_queue.Prelude.{ℕ, String, none, some, List, [], ◌∷◌, ◌==◌, string_eq, if◌then◌else◌}
use axon_queue.Prelude.Dict.{Dict, find, put}
use axon_queue.Task.{Task, TaskPtr}
use axon_queue.Task.Json.{JsonLib}
use axon_queue.QueueManager.Access.{Metric, count, average_of}
use axon_queue.QueueManager.Access
use axon_queue.Storage.Database.{RocksDb}
use axon_queue.CliCommands.{World, error, CliCommands, Result}
use axon_queue.CliCommands.TaskCommands
use axon_queue.CliCommands.Settings
use axon_queue.CliCommands.Files
use axon_queue.CliCommands.Listing
use axon_queue.TcpServer.{
  TcpServer, Reply, responds, reports, Outcome, returns, throws, CommandHandler, gets_metrics,
  calls,
}

abbrev put_all : Dict String Metric → Dict String Metric → Dict String Metric
put_all [] metrics = metrics
put_all ((key, value) ∷ rest) metrics = put_all rest (put key value metrics)

module _ (lib : JsonLib) (rocks : RocksDb lib) (world : World lib) where
  open lib use {Json}

  unfoldable pub get_metrics : TcpServer lib rocks world → Dict String Metric
  get_metrics s = put_all (Access.get_metrics s.cli_commands.queue_manager) (
      ("active_connections", count s.active_connections)
      ∷ ("total_connections", count s.total_connections)
      ∷ ("total_requests", count s.total_requests)
      ∷ ("request_errors", count s.request_errors)
      ∷ ("avg_response_time_ms", average_of s.total_response_time_ms s.total_requests)
      ∷ [])

  module _ (now : ℕ) (p : TaskPtr) (finished : List (List Task) → List (List Task)) where
    -- The chain of names.
    unfoldable pub built_in : String → Json → CliCommands lib rocks world → Result lib rocks world
    built_in name params c =
        if name == "enqueue"
        then TaskCommands.enqueue lib rocks world now p params c
        else if name == "dequeue"
        then TaskCommands.dequeue lib rocks world now c
        else if name == "run"
        then TaskCommands.run lib rocks world now params c
        else if name == "cancel"
        then TaskCommands.cancel lib rocks world now params c
        else if name == "kill"
        then TaskCommands.kill lib rocks world now params c
        else if name == "status"
        then TaskCommands.status lib rocks world params c
        else if name == "list"
        then Listing.list lib rocks world finished now params c
        else if name == "clear"
        then TaskCommands.clear lib rocks world params c
        else if name == "setMode"
        then Settings.set_mode lib rocks world params c
        else if name == "setConcurrency"
        then Settings.set_concurrency lib rocks world params c
        else if name == "setRetry"
        then Settings.set_retry lib rocks world now params c
        else if name == "setDelay"
        then Settings.set_delay lib rocks world now params c
        else if name == "setSchedule"
        then Settings.set_schedule lib rocks world now params c
        else if name == "depend"
        then Settings.depend lib rocks world now params c
        else if name == "graph"
        then TaskCommands.graph lib rocks world params c
        else if name == "ready"
        then Listing.ready lib rocks world now c
        else if name == "connect"
        then Settings.connect lib rocks world params c
        else if name == "submit"
        then Files.submit lib rocks world now p params c
        else if name == "exportTask"
        then Files.export_task lib rocks world params c
        else if name == "importTask"
        then Files.import_task lib rocks world now p params c
        else (error (append "Unknown command: " name), c)

    abbrev caught : Outcome Json → Reply Json
    caught (returns reply) = reply
    caught (throws what) = responds (error (append "Command execution error: " what))

    abbrev handled : CommandHandler Json → Json → Dict String Metric → Reply Json
    handled gets_metrics params metrics = reports metrics
    handled (calls f) params metrics = caught (f params)

    -- A registered handler comes before the commands of the same name.
    unfoldable pub execute_command :
        String → Json → TcpServer lib rocks world → Reply Json × CliCommands lib rocks world
    unfolding built_in get_metrics
    execute_command name params s = elim (find name s.command_handlers) [
      | some handler ↦ (handled handler params (get_metrics s), s.cli_commands)
      | none ↦ let (response, c) = built_in name params s.cli_commands in (responds response, c)
    ]
