-- ===== src/Tests/Requests.antt =====
-- Tests of the requests that the agent's server takes.
use motekarindo_panel.Base.{true, ◌≡◌, ◌⊎◌, refl, ℕ, ◌+◌, some, none, [], ◌∷◌}
use motekarindo_panel.Base.Text.{Text, txt}
use motekarindo_panel.Base.Error.{ok}
use motekarindo_panel.Base.Act.{Act}
use motekarindo_panel.Agent.Tokens.{open_object, close_object, word}
use motekarindo_panel.Agent.Payload.{ActionResult, Json}
use motekarindo_panel.Agent.Actions.{Handlers}
use motekarindo_panel.Agent.Server.{Request, complete, Response, document, handle_action}
use motekarindo_panel.Agent.Server.Handled.{IsRun, IsLasting, handle_action-IsRun}
use motekarindo_panel.Agent.Transport.{Wire, execute_on_agent}
use motekarindo_panel.Agent.Transport.Delivered.{delivered, IsDone, execute_on_agent-IsDone}
use motekarindo_panel.Jobs.{Job, JobResult}
use motekarindo_panel.Jobs.SqlStore.Rows.{scan_job}
use motekarindo_panel.Tests.{queued_row, job_of}

-- A codec for which each document has an empty object as its payload.
abbrev envelope_json : Json
envelope_json = record {
  tokens = λ s. open_object ∷ word (txt "payload") ∷ open_object ∷ close_object ∷ close_object ∷ [];
  reader = record { members = λ s. some ((txt "payload", txt "{}") ∷ []); elements = λ s. none };
  marshal = λ r. some (txt "{}");
}

abbrev count_site : Text → Act ℕ ActionResult
count_site payload n = (
  ok (record {
    action = txt "site.create";
    status = txt "ok";
    body = none;
    logs = [];
    encoded_json = txt "{}";
  }),
  n + 1,
)

abbrev counting : Text → Handlers ℕ
counting key = (txt "site.create", count_site) ∷ []

abbrev request : Request
request = record {
  name = txt "site.create";
  idempotency_key = txt "j1";
  media_type = some (txt "application/json");
  body = complete (txt "{\"payload\":{}}");
}

request_runs : handle_action envelope_json counting request 0 ≡ (document (txt "{}"), 1)
unfolding handle_action
request_runs = refl

handle_action-IsRun_example :
    IsRun envelope_json counting request 0 (handle_action envelope_json counting request 0)
    ⊎ ((r : Response) × (handle_action envelope_json counting request 0 ≡ (r, 0)) × IsLasting r)
handle_action-IsRun_example = handle_action-IsRun envelope_json counting request 0

abbrev site_done : ActionResult
site_done = record {
  action = txt "site.create";
  status = txt "ok";
  body = none;
  logs = [];
  encoded_json = [];
}

abbrev reading_wire : Wire
reading_wire = record {
  valid = λ s. true;
  code_of = λ s. none;
  result_of = λ s. some site_done;
  marshal_fields = λ f. some (txt "{}");
}

abbrev site_job : Job
site_job = record (job_of (queued_row (txt "j1") 1)) {
  type = txt "site.create";
  payload = txt "{}";
}

abbrev encoded_error : Text → Text → Text
encoded_error code message = txt "{}"

abbrev succeeded : JobResult
succeeded = record { code = txt "ok"; body = txt "{}"; logs = [] }

site_job-succeeds :
    execute_on_agent reading_wire
      (delivered reading_wire encoded_error envelope_json counting 0)
      site_job
    ≡ ok succeeded
unfolding execute_on_agent handle_action scan_job
site_job-succeeds = refl

execute_on_agent-IsDone_example :
    IsDone reading_wire encoded_error envelope_json counting site_job 0 succeeded
execute_on_agent-IsDone_example =
    execute_on_agent-IsDone reading_wire encoded_error envelope_json counting site_job 0 succeeded
      site_job-succeeds
