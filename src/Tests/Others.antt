-- ===== src/Tests/Others.antt =====
-- Tests of the queue, the checks of what is recorded, ids, the settings and the roles.
use motekarindo_panel.Base.{
  ℕ, ◌⊎◌, ◌≡◌, ◌≤◌, ◌*◌, ◌^◌, min, arith, refl, true, false, none, some, [], ◌∷◌, any, get_elem?,
  length,
}
use motekarindo_panel.Base.Int.{pos}
use motekarindo_panel.Base.Text.{Text, txt, same, to_lower}
use motekarindo_panel.Base.Error.{Error, ok, err, plain, driver}
use motekarindo_panel.Base.Act.{pure, lift, attempt, ◌>>=◌}
use motekarindo_panel.Base.Sql.{Conn, exec}
use motekarindo_panel.Logging.{is_sensitive}
use motekarindo_panel.Schema.{job_checks, Tables}
use motekarindo_panel.Jobs.{Job, EnqueueInput, JobResult, second}
use motekarindo_panel.Jobs.Ident.{new_uuid, valid_job_id}
use motekarindo_panel.Jobs.Ident.Laws.{valid_job_id-new_uuid}
use motekarindo_panel.Jobs.Finish.{safe_failure_message, max_failure_runes, normalize_result}
use motekarindo_panel.Jobs.Finish.Redaction.{safe_failure_message-IsSafe}
use motekarindo_panel.Jobs.Finish.Clean.{IsClean, normalize_result-IsClean}
use motekarindo_panel.Jobs.Queue.{new_job, enqueue, build_job}
use motekarindo_panel.Jobs.Queue.Checks.{sql_queue}
use motekarindo_panel.Jobs.Queue.Enqueued.{Enqueued}
use motekarindo_panel.Jobs.SqlStore
use motekarindo_panel.Jobs.SqlStore.Rows.{row_of, insert_job}
use motekarindo_panel.Jobs.Worker.{exponential_backoff, max_backoff}
use motekarindo_panel.Jobs.Worker.Backoff.{exponential_backoff_lem}
use motekarindo_panel.Settings.{
  chosen, nginx, parse_web_server, select, selected, Setting, name_of, sql_service, find_setting,
  get_setting, save_setting, check_current, after_save, record_selected, upsert, upserted,
}
use motekarindo_panel.Settings.Stored.{HasChoice, recorder}
use motekarindo_panel.Settings.Choice.{select-HasChoice, select-eq-ok}
use motekarindo_panel.Rbac.{
  role_admin, role_customer, role_owner, role_reseller, permission_dns_manage, all_permission_codes,
  has_permission, role_by_name,
}
use motekarindo_panel.Rbac.Laws.{grants, has_permission-role_by_name, has_permission-ordered}
use motekarindo_panel.Tests.{lenient, no_locks, tables_of, conn_of}

abbrev zero_bytes : ℕ → ℕ
zero_bytes i = 0

abbrev first_id : Text
first_id = txt "00000000-0000-4000-8000-000000000000"

first_id_made : new_uuid (ok zero_bytes) ≡ ok first_id
unfolding new_uuid
first_id_made = refl

valid_job_id-new_uuid_example : (valid_job_id first_id ≡ true) × (get_elem? first_id 14 ≡ some b'4')
valid_job_id-new_uuid_example =
    valid_job_id-new_uuid zero_bytes first_id (λ i. ground arith) first_id_made

abbrev input : EnqueueInput
input = record {
  type = txt " site.create ";
  resource_key = txt "site:1";
  idempotency_key = [];
  payload = [];
  max_attempts = pos 3;
  run_after = 0;
}

abbrev made : Job
made = build_job 5 first_id (record input { type = txt "site.create"; payload = txt "{}" }) 3

enqueued :
    (enqueue lenient (sql_queue no_locks (txt "t1") 5 (ok first_id) 10) input (conn_of [])).0
    ≡ ok made
unfolding enqueue SqlStore.enqueue exec lift pure new_job insert_job job_checks row_of build_job
enqueued = refl

safe_failure_message-IsSafe_example :
    (is_sensitive (to_lower (safe_failure_message (plain (txt "bad token abc")))) ≡ false)
    × (length (safe_failure_message (plain (txt "bad token abc"))) ≤ max_failure_runes)
safe_failure_message-IsSafe_example = safe_failure_message-IsSafe (plain (txt "bad token abc"))

abbrev raw : JobResult
raw = record {
  code = txt " ok ";
  body = txt "{}";
  logs = record { level = txt "INFO"; message = txt "done" } ∷ [];
}

abbrev clean : JobResult
clean = record {
  code = txt "ok";
  body = txt "{}";
  logs = record { level = txt "info"; message = txt "done" } ∷ [];
}

normalized : normalize_result lenient raw ≡ ok clean
unfolding normalize_result
normalized = refl

normalize_result-IsClean_example : IsClean lenient clean
normalize_result-IsClean_example = normalize_result-IsClean lenient raw clean normalized

exponential_backoff_lem_example : exponential_backoff 4 ≡ min (second * 2 ^ 3) max_backoff
exponential_backoff_lem_example = exponential_backoff_lem 4

abbrev initial : Conn Tables
initial = record {
  tables = record (tables_of []) {
    server_settings = record { key = txt "web_server"; value = []; is_immutable = true } ∷ [];
  };
  faults = [];
}

selects : (select (sql_service (recorder none)) (txt " Nginx") initial).0 ≡ ok nginx
unfolding select ◌>>=◌ attempt lift exec parse_web_server get_setting find_setting check_current
    save_setting upsert upserted after_save record_selected same
selects = refl

abbrev after_nginx : Conn Tables
after_nginx = (select (sql_service (recorder none)) (txt " Nginx") initial).1

select-eq-ok_example :
    (parse_web_server (txt " Nginx") ≡ ok nginx)
    × ((setting : Setting) × HasChoice setting after_nginx.tables.server_settings
        × (setting.value ≡ name_of nginx))
    × (((selected (sql_service (recorder none)) after_nginx).0 ≡ ok nginx)
        ⊎ ((m : Text) × ((selected (sql_service (recorder none)) after_nginx).0 ≡ err (driver m))))
select-eq-ok_example = select-eq-ok none (txt " Nginx") initial nginx selects

abbrev decided : Conn Tables
decided = record {
  tables = record (tables_of []) { server_settings = chosen nginx ∷ [] };
  faults = [];
}

decided_nginx : HasChoice (chosen nginx) (chosen nginx ∷ [])
unfolding find_setting
decided_nginx = (refl, refl)

select-HasChoice_example :
    ((e : Error) × ((select (sql_service (recorder none)) (txt "apache") decided).0 ≡ err e))
    × ((select (sql_service (recorder none)) (txt "apache") decided).1.tables.server_settings
        ≡ decided.tables.server_settings)
select-HasChoice_example = select-HasChoice none (chosen nginx) (txt "apache") decided decided_nginx

has_permission-role_by_name_example :
    has_permission (txt "guest" ∷ role_reseller ∷ []) permission_dns_manage
    ≡ any
        (λ name. grants (role_by_name name) permission_dns_manage)
        (txt "guest" ∷ role_reseller ∷ [])
has_permission-role_by_name_example =
    has_permission-role_by_name (txt "guest" ∷ role_reseller ∷ []) permission_dns_manage

has_permission-ordered_example :
    (has_permission (role_customer ∷ []) permission_dns_manage ≡ true
      → has_permission (role_reseller ∷ []) permission_dns_manage ≡ true)
    × (has_permission (role_reseller ∷ []) permission_dns_manage ≡ true
        → has_permission (role_admin ∷ []) permission_dns_manage ≡ true)
    × (has_permission (role_admin ∷ []) permission_dns_manage ≡ true
        → has_permission (role_owner ∷ []) permission_dns_manage ≡ true)
    × (has_permission (role_owner ∷ []) permission_dns_manage
        ≡ any (λ c. same c permission_dns_manage) all_permission_codes)
has_permission-ordered_example = has_permission-ordered permission_dns_manage
