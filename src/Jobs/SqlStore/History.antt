-- ===== src/Jobs/SqlStore/History.antt =====
-- Histories of calls of the SQL store (internal/jobs/sqlstore.go), from empty tables.
use motekarindo_panel.Base.{◌≤◌, Bool, Option, List, refl}
use motekarindo_panel.Base.Text.{Text}
use motekarindo_panel.Base.Error.{Result}
use motekarindo_panel.Base.Sql.{Conn}
use motekarindo_panel.Schema.{no_tables, Time, AuditRow, Tables}
use motekarindo_panel.Jobs.{Job, JobResult, Mutation}
use motekarindo_panel.Jobs.SqlStore.{enqueue, claim_one, mark_succeeded, mark_failed, retry, cancel}
use motekarindo_panel.Jobs.SqlStore.Claim.{Locks}
use motekarindo_panel.Jobs.SqlStore.Claim.Exclusive.{Exclusive-later}
use motekarindo_panel.Jobs.SqlStore.Claim.Outcome.{IsChecked}
use motekarindo_panel.Jobs.SqlStore.Checked.{
  enqueue-IsChecked, claim_one-IsChecked, mark_succeeded-IsChecked, mark_failed-IsChecked,
  mutate-IsChecked,
}
use motekarindo_panel.Jobs.SqlStore.Exclusion.{IsSeparate}
use motekarindo_panel.Jobs.SqlStore.Separation.{
  enqueue-IsSeparate, claim_one-IsSeparate, mark_succeeded-IsSeparate, mark_failed-IsSeparate,
  mutate-IsSeparate,
}

-- The exported methods that write, with what they read besides the tables.
pub data Call : Type 0 where
  enqueueing : Job → Call
  claiming : Locks → Text → Time → Call
  succeeding : Job → JobResult → Call
  failing : Job → Bool → Bool → Time → Time → Text → Call
  retrying cancelling : (AuditRow → Bool) → Result Text → Text → Mutation → Call

-- The connection after a call at an instant, whether it returned or failed.
unfoldable pub perform : Time → Call → Conn Tables → Conn Tables
perform now (enqueueing job) c = (enqueue job c).1
perform now (claiming locks token lease) c = (claim_one locks token now lease c).1
perform now (succeeding job result) c = (mark_succeeded job now result c).1
perform now (failing job final retryable run_after finished_at message) c =
    (mark_failed job final retryable run_after now finished_at message c).1
perform now (retrying accepts event_id id mutation) c = (retry accepts now event_id id mutation c).1
perform now (cancelling accepts event_id id mutation) c =
    (cancel accepts now event_id id mutation c).1

-- What a clock that never goes back and calls from the empty tables on reach.
pub data Reached : Time → Conn Tables → Type 0 where
  start :
      (now : Time) (faults : List (Option Text))
      → Reached now (record { tables = no_tables; faults = faults })
  wait : {now later : Time} {c : Conn Tables} → now ≤ later → Reached now c → Reached later c
  call : {now : Time} {c : Conn Tables} (op : Call) → Reached now c → Reached now (perform now op c)

perform-IsSeparate :
    (now : Time) (op : Call) (c : Conn Tables)
    → IsSeparate now c.tables
    → IsSeparate now (perform now op c).tables
unfolding perform retry cancel
perform-IsSeparate now (enqueueing job) c v = (enqueue-IsSeparate now job).after c v
perform-IsSeparate now (claiming locks token lease) c v =
    (claim_one-IsSeparate now locks token lease).after c v
perform-IsSeparate now (succeeding job result) c v =
    (mark_succeeded-IsSeparate now job now result).after c v
perform-IsSeparate now (failing job final retryable run_after finished_at message) c v =
    (mark_failed-IsSeparate now job final retryable run_after now finished_at message).after c v
perform-IsSeparate now (retrying accepts event_id id mutation) c v =
    (mutate-IsSeparate now accepts now event_id id mutation _ _ _ refl).after c v
perform-IsSeparate now (cancelling accepts event_id id mutation) c v =
    (mutate-IsSeparate now accepts now event_id id mutation _ _ _ refl).after c v

-- After every history of calls of the store, each of which may fail at any of its statements, and
-- at every later instant: ids are distinct, and no two jobs of one non-empty resource key run
-- under live leases. A claim is one atomic statement on its snapshot.
pub Reached-IsSeparate : (now : Time) (c : Conn Tables) → Reached now c → IsSeparate now c.tables
Reached-IsSeparate now _ (start _ faults) = record { distinct = tt; exclusive = tt }
Reached-IsSeparate later c (wait {now = now} h r) =
    let v = Reached-IsSeparate now c r in
    record {
      distinct = v.distinct;
      exclusive = Exclusive-later now later c.tables.jobs h v.exclusive;
    }
Reached-IsSeparate now _ (call {c = c} op r) =
    perform-IsSeparate now op c (Reached-IsSeparate now c r)

perform-IsChecked :
    (now : Time) (op : Call) (c : Conn Tables)
    → IsSeparate now c.tables
    → IsChecked c.tables
    → IsChecked (perform now op c).tables
unfolding perform retry cancel
perform-IsChecked now (enqueueing job) c s v = (enqueue-IsChecked job).after c v
perform-IsChecked now (claiming locks token lease) c s v =
    ((claim_one-IsChecked now lease token locks).after c (s, v)).1
perform-IsChecked now (succeeding job result) c s v =
    (mark_succeeded-IsChecked job now result).after c v
perform-IsChecked now (failing job final retryable run_after finished_at message) c s v =
    (mark_failed-IsChecked job final retryable run_after now finished_at message).after c v
perform-IsChecked now (retrying accepts event_id id mutation) c s v =
    (mutate-IsChecked accepts now event_id id mutation _ _ _).after c v
perform-IsChecked now (cancelling accepts event_id id mutation) c s v =
    (mutate-IsChecked accepts now event_id id mutation _ _ _).after c v

-- After every history of calls every row passes the CHECKs of the table jobs.
pub Reached-IsChecked : (now : Time) (c : Conn Tables) → Reached now c → IsChecked c.tables
Reached-IsChecked now _ (start _ faults) = tt
Reached-IsChecked later c (wait {now = now} h r) = Reached-IsChecked now c r
Reached-IsChecked now _ (call {c = c} op r) =
    perform-IsChecked now op c (Reached-IsSeparate now c r) (Reached-IsChecked now c r)
