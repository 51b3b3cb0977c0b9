-- ===== src/Tests/Changes.antt =====
-- Tests of `Retry` and `Cancel` (internal/jobs/sqlstore.go).
use motekarindo_panel.Base.{some, []}
use motekarindo_panel.Base.Text.{Text, txt}
use motekarindo_panel.Schema.{failed, JobRow}
use motekarindo_panel.Jobs.{Mutation}
use motekarindo_panel.Tests.{queued_row}

abbrev job_id : Text
job_id = txt "00000000-0000-4000-8000-000000000000"

abbrev by_admin : Mutation
by_admin = record { actor_user_id = txt "u1"; ip_address = []; user_agent = [] }

abbrev failed_row : JobRow
failed_row = record (queued_row job_id 1) { status = failed; attempts = 3; finished_at = some 4 }

abbrev waiting_row : JobRow
waiting_row = queued_row job_id 1
