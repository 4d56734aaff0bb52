-- ===== src/Runs/JobStatus.antt =====
-- schemas/enums.py: the status of a workflow job, its text, and the tests that the code makes.
use autonomous_enterprise_ai.Base.{String, Bool, true, false}

pub data WorkflowJobStatus : Type 0 where
  queued running waiting_for_approval completed failed dead_letter dismissed : WorkflowJobStatus

-- The enum's `value`.
unfoldable pub value : WorkflowJobStatus → String
value queued = "queued"
value running = "running"
value waiting_for_approval = "waiting_for_approval"
value completed = "completed"
value failed = "failed"
value dead_letter = "dead_letter"
value dismissed = "dismissed"

abbrev pub is_queued : WorkflowJobStatus → Bool
is_queued queued = true
is_queued _ = false

abbrev pub is_running : WorkflowJobStatus → Bool
is_running running = true
is_running _ = false

abbrev pub is_completed : WorkflowJobStatus → Bool
is_completed completed = true
is_completed _ = false

abbrev pub is_dead_letter : WorkflowJobStatus → Bool
is_dead_letter dead_letter = true
is_dead_letter _ = false

abbrev pub is_waiting : WorkflowJobStatus → Bool
is_waiting waiting_for_approval = true
is_waiting _ = false

abbrev pub is_result : WorkflowJobStatus → Bool
is_result completed = true
is_result failed = true
is_result _ = false

abbrev pub is_active : WorkflowJobStatus → Bool
is_active queued = true
is_active running = true
is_active _ = false
