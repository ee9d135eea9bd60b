-- ===== src/QueueManager/SetMode.antt =====
-- `setMode` of QueueManager.cpp: the tasks of the old mode's containers are moved to those of the
-- new mode.
use axon_queue.Prelude.{ℕ, Bool, true, false, List, [], ◌∷◌, if◌then◌else◌}
use axon_queue.Task.{TaskPtr}
use axon_queue.Queues.Family.{Group, drain}
use axon_queue.QueueManager.{QueueManager, QueueMode, fifo, lifo, round_robin, priority, insert}

unfoldable pub same_mode : QueueMode → QueueMode → Bool
same_mode fifo fifo = true
same_mode lifo lifo = true
same_mode round_robin round_robin = true
same_mode priority priority = true
same_mode _ _ = false

-- A drained priority queue gives its tasks, without the priorities.
abbrev pub without_priority : List (Group × (ℕ × TaskPtr)) → List (Group × TaskPtr)
without_priority [] = []
without_priority ((group, (q, p)) ∷ rest) = (group, p) ∷ without_priority rest

-- The first `switch`.
unfoldable pub tasks_in : QueueMode → QueueManager → List (Group × TaskPtr)
tasks_in fifo m = drain m.fifo_queues
tasks_in lifo m = drain m.lifo_queues
tasks_in priority m = without_priority (drain m.priority_queues)
tasks_in round_robin m = drain m.fifo_queues

unfoldable pub all_tasks : QueueManager → List (Group × TaskPtr)
unfolding tasks_in
all_tasks m = tasks_in m.mode m

-- The last loop.
unfoldable pub insert_all : List (Group × TaskPtr) → QueueManager → QueueManager
insert_all [] m = m
insert_all ((group, p) ∷ rest) m = insert_all rest (insert group p m)

unfoldable pub set_mode : QueueMode → QueueManager → QueueManager
unfolding same_mode all_tasks insert_all
set_mode mode m =
    if same_mode m.mode mode
    then m
    else insert_all (all_tasks m)
        (record m { mode = mode; fifo_queues = []; lifo_queues = []; priority_queues = [] })
