-- ===== src/Tests/ServerTests.antt =====
-- The theorems on the server at concrete inputs.
use mathlib.Core.List.{Perm}
use axon_queue.Prelude.{ℕ, ◌≡◌, refl, String, true, false, [], ◌∷◌, All}
use axon_queue.TcpServer.{
  TcpServer, Work, new_server, handle_accept, start, queue_work, is_active,
  cleanup_inactive_sessions,
}
use axon_queue.TcpServer.Sessions.{Runs, stays, goes, starts, accepts, IsCounted, Runs-IsCounted}
use axon_queue.TcpServer.Requests.{take_work}
use axon_queue.TcpServer.Workers.{
  Turns, none_yet, then_, queues, takes, finishes, begin_with, works_conserved,
}
use axon_queue.Tests.Trees.{Tree, empty, tree_lib}
use axon_queue.Tests.Database.{tree_db}
use axon_queue.Tests.CommandTests.{world, commands}

abbrev Server : Type 0
Server = TcpServer tree_lib tree_db world

abbrev accepted : Server
accepted =
    handle_accept tree_lib tree_db world false 1000 5
      (start tree_lib tree_db world (new_server tree_lib tree_db world commands))

accepted-Runs : Runs tree_lib tree_db world (new_server tree_lib tree_db world commands) accepted
accepted-Runs = goes (goes stays starts) (accepts false 1000 5)

Runs-IsCounted_example :
    let s = cleanup_inactive_sessions tree_lib tree_db world 2000 accepted in
    IsCounted tree_lib tree_db world accepted
    × IsCounted tree_lib tree_db world s
    × All (λ p. is_active 2000 (s.objects p) ≡ true) s.sessions
Runs-IsCounted_example = Runs-IsCounted tree_lib tree_db world commands accepted 2000 accepted-Runs

abbrev request : ℕ → String → Work Tree
request time command = record { session = 5; command = command; params = empty; start_time = time }

abbrev busy : Server
busy = record accepted { work_queue = request 1100 "dequeue" ∷ request 1200 "metrics" ∷ [] }

abbrev oldest : Work Tree
oldest = request 1100 "dequeue"

abbrev newest : Work Tree
newest = request 1200 "metrics"

abbrev without_newest : Server
without_newest = record busy { work_queue = oldest ∷ [] }

abbrev emptied : Server
emptied = record busy { work_queue = [] }

abbrev late : Work Tree
late = request 1300 "dequeue"

-- Two workers take a work each, a third work is queued, and the second worker finishes first.
interleaved :
    Turns tree_lib tree_db world (begin_with tree_lib tree_db world busy) (late ∷ []) (record {
      server = queue_work tree_lib tree_db world late emptied;
      taken = newest ∷ [];
      finished = oldest ∷ [];
      dropped = [];
    })
unfolding take_work
interleaved =
    then_
      (then_ (then_ (then_ none_yet (takes newest without_newest refl)) (takes oldest emptied refl))
        (queues late))
      (finishes [] (newest ∷ []) oldest refl)

works_conserved_example : Perm (late ∷ (newest ∷ (oldest ∷ []))) (late ∷ (oldest ∷ (newest ∷ [])))
unfolding queue_work
works_conserved_example =
    works_conserved tree_lib tree_db world busy (late ∷ [])
      (record {
        server = queue_work tree_lib tree_db world late emptied;
        taken = newest ∷ [];
        finished = oldest ∷ [];
        dropped = [];
      })
      interleaved
