-- ===== src/Tests/Sample.antt =====
-- Tasks for the tests.
use axon_queue.Prelude.{[], Option, none, some, if◌then◌else◌, ◌==◌, nat_eq}
use axon_queue.Task.{Task, TaskPtr, TaskStatus, medium, created}

-- A task at each address.
abbrev pub with_status : TaskStatus → TaskPtr → Task
with_status s p = record {
  id = p;
  name = "job";
  priority = medium;
  status = s;
  created_at = 100;
  scheduled_for = 100;
  started_at = 0;
  completed_at = 0;
  enqueued_at = 0;
  dequeued_at = 0;
  error_message = "";
  retry_count = 0;
  max_retries = 3;
  dependencies = [];
}

abbrev pub fresh : TaskPtr → Task
fresh p = with_status created p

-- All tasks are there, but for the one at address 9.
abbrev pub lock : (TaskPtr → Task) → TaskPtr → Option Task
lock tasks p = if p == 9 then none else some (tasks p)
