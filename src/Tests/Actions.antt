-- ===== src/Tests/Actions.antt =====
-- Tests of the agent's actions and their client, of the checks before an installation and of the
-- migrations.
use motekarindo_panel.Base.{
  any, List, ◌≡◌, ◌⊎◌, refl, ℕ, ◌+◌, true, false, ◌&&◌, not, none, some, [], ◌∷◌, map,
}
use motekarindo_panel.Base.Int.{pos}
use motekarindo_panel.Base.Sort.{Chain, text_lt}
use motekarindo_panel.Base.Text.{Text, same, txt}
use motekarindo_panel.Base.Error.{driver, sentinel, invalid_payload, Result, ok, refuse}
use motekarindo_panel.Base.Act.{Act, ◌>>=◌}
use motekarindo_panel.Base.Sql.{Conn}
use motekarindo_panel.Json.{Value, null, object, end, field}
use motekarindo_panel.Agent.Tokens.{open_object, close_object, reject_duplicate_json_keys}
use motekarindo_panel.Agent.Tokens.Document.{tokens, has_unique_keys}
use motekarindo_panel.Agent.Tokens.Unique.{reject_duplicate_json_keys-tokens}
use motekarindo_panel.Agent.PayloadType.{
  StructField, PayloadType, struct, string, StructFields, validate_payload_type,
}
use motekarindo_panel.Agent.PayloadType.Explicit.{
  Reaches, IsExplicit, validate_payload_type-IsExplicit,
}
use motekarindo_panel.Agent.Payload.{ActionResult, Json, Schema}
use motekarindo_panel.Agent.Actions.{Action, run_action, execute, actions}
use motekarindo_panel.Agent.Actions.Running.{HasRun, run_action-HasRun}
use motekarindo_panel.Agent.Actions.Registry.{
  is_some, registered, added, run_found, registered-refines,
}
use motekarindo_panel.Agent.Transport.{Exchange, broken_off, Wire, execute_on_agent}
use motekarindo_panel.Agent.Transport.Outcome.{
  is_open, IsForeign, is_sendable, is_unknown, exchanged, execute_on_agent-is_open,
}
use motekarindo_panel.Preflight.{SystemFacts, ready, run}
use motekarindo_panel.Preflight.Ready.{meets, ready-run}
use motekarindo_panel.Database.{Migration, up, Schema as MigrationTables, sql_migration_store}
use motekarindo_panel.Database.Pending.{pending, IsRecorded}
use motekarindo_panel.Database.Recorded.{rows_of, HasFailed, up-IsRecorded}
use motekarindo_panel.Jobs.Worker.{is_uncertain}
use motekarindo_panel.Tests.{queued_row, job_of}

abbrev twice : Value
twice = object (field (txt "a") null (field (txt "a") null end))

reject_duplicate_json_keys-tokens_example :
    reject_duplicate_json_keys (tokens twice [])
    ≡ refuse (not (has_unique_keys twice)) (sentinel invalid_payload)
reject_duplicate_json_keys-tokens_example = reject_duplicate_json_keys-tokens twice

abbrev site_name : StructField
site_name = record {
  name = txt "Name";
  tag = txt "name,omitempty";
  is_exported = true;
  is_anonymous = false;
}

abbrev site_type : PayloadType
site_type = struct (StructFields.field site_name string StructFields.end)

site_passes : validate_payload_type site_type ≡ ok tt
unfolding validate_payload_type
site_passes = refl

validate_payload_type-IsExplicit_example :
    (fs : StructFields) × (site_type ≡ struct fs)
    × ((f : StructField) (v : PayloadType) → Reaches site_type f v → IsExplicit f v)
validate_payload_type-IsExplicit_example = validate_payload_type-IsExplicit site_type tt site_passes

-- A codec for which each document is the empty object.
abbrev plain_json : Json
plain_json = record {
  tokens = λ s. open_object ∷ close_object ∷ [];
  reader = record { members = λ s. some []; elements = λ s. none };
  marshal = λ r. some (txt "{}");
}

abbrev site_schema : Schema Text
site_schema = record { described = site_type; decode = λ s. some s }

abbrev done : ActionResult
done = record { action = []; status = txt "ok"; body = none; logs = []; encoded_json = [] }

abbrev handle_site : Text → Act ℕ ActionResult
handle_site payload n = (ok done, n + 1)

abbrev site_done : ActionResult
site_done = record done { action = txt "site.create"; encoded_json = txt "{}" }

site_runs :
    (run_action plain_json (txt "site.create") site_schema (λ s. ok tt) handle_site (txt " {}") 0).0
    ≡ ok site_done
unfolding run_action ◌>>=◌
site_runs = refl

run_action-HasRun_example :
    HasRun plain_json
      (txt "site.create")
      site_schema
      (λ s. ok tt)
      handle_site
      (txt " {}")
      0
      (run_action plain_json
        (txt "site.create")
        site_schema
        (λ s. ok tt)
        handle_site
        (txt " {}")
        0).1
      site_done
run_action-HasRun_example =
    run_action-HasRun plain_json (txt "site.create") site_schema (λ s. ok tt) handle_site
      (txt " {}") 0 site_done site_runs

abbrev site_action : Action ℕ
site_action = record { name = txt "site.create"; handler = some handle_site }

abbrev nameless : Action ℕ
nameless = record { name = []; handler = some handle_site }

abbrev offered : List (Action ℕ)
offered = site_action ∷ nameless ∷ site_action ∷ []

registered-refines_example :
    ((n payload : Text)
      → execute (registered (λ s. s) offered []) n payload
        ≡ run_found {S = ℕ} n payload (added offered (λ k. none) n))
    × ((n : Text)
        → any (λ k. same k n) (actions (registered (λ s. s) offered []))
          ≡ is_some (added offered (λ k. none) n))
    × Chain text_lt (actions (registered (λ s. s) offered []))
registered-refines_example = registered-refines (λ s. s) offered

abbrev wire : Wire
wire = record {
  valid = λ s. true;
  code_of = λ s. none;
  result_of = λ s. some site_done;
  marshal_fields = λ f. some (txt "{}");
}

abbrev cut_off : Text → Text → Text → Exchange
cut_off name body key = broken_off true (driver (txt "EOF"))

cut_off-IsForeign : (name body key : Text) → IsForeign (cut_off name body key)
unfolding IsForeign is_uncertain
cut_off-IsForeign name body key = refl

execute_on_agent-is_open_example :
    is_unknown (execute_on_agent wire cut_off (job_of (queued_row (txt "j1") 1))) ≡ (
      is_sendable wire (job_of (queued_row (txt "j1") 1))
      && is_open (exchanged wire cut_off cut_off-IsForeign (job_of (queued_row (txt "j1") 1))))
execute_on_agent-is_open_example =
    execute_on_agent-is_open wire cut_off cut_off-IsForeign (job_of (queued_row (txt "j1") 1))

abbrev host : SystemFacts
host = record {
  os = record { id = txt "ubuntu"; version_id = txt "24.04"; name = txt "Ubuntu" };
  profile = txt "single-user";
  cpu_cores = pos 1;
  ram_mb = pos 1000;
  disk_gb = pos 15;
  swap_mb = pos 1024;
  is_root = true;
  has_systemd = true;
  ports_available = (443, true) ∷ (80, true) ∷ [];
  postgresql_plan = txt "install";
}

ready-run_example : ready (run host) ≡ meets host
ready-run_example = ready-run host

abbrev scripts : Text → MigrationTables ℕ → Result (Unit {0}) × MigrationTables ℕ
scripts text t = (ok tt, record t { others = t.others + 1 })

abbrev core : Migration
core = record {
  version = 1;
  name = txt "core";
  path = txt "000001_core.sql";
  sql = txt "CREATE TABLE users ()";
}

abbrev empty_database : Conn (MigrationTables ℕ)
empty_database = record { tables = record { schema_migrations = none; others = 0 }; faults = [] }

up-IsRecorded_example :
    IsRecorded scripts
      (λ text t. refl)
      (rows_of empty_database.tables)
      (pending (map (λ r. r.0) (rows_of empty_database.tables)) (core ∷ []))
      (up (sql_migration_store scripts) (core ∷ []) empty_database)
    ⊎ HasFailed scripts
        (λ text t. refl)
        (rows_of empty_database.tables)
        (up (sql_migration_store scripts) (core ∷ []) empty_database)
up-IsRecorded_example = up-IsRecorded scripts (λ text t. refl) (core ∷ []) empty_database
