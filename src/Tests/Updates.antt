-- ===== src/Tests/Updates.antt =====
-- A run of an upgrade of the management stack (internal/managementupdate).
use floatlab_core.Base.{Option, [], false, lookup, nat_eq, none, refl, some, string_eq, true, ◌≡◌}
use floatlab_core.ManagementUpdate.{Env, Status, World, call, installing, save, step, written}
use floatlab_core.ManagementUpdate.Requests.{
  Host, Request, Result, absent, ask, host_available, ok, read_status, valid_operation_id,
}
use floatlab_core.ManagementUpdate.Start.{begin, is_invalid, new_status, start}
use floatlab_core.ManagementUpdate.Execute.{run_started}
use floatlab_core.ManagementUpdate.Trace.{Inv}
use floatlab_core.ManagementUpdate.Reach.{Reach, Reach-Inv, installed, starts_and_runs}
use floatlab_core.ManagementUpdate.Recovery.{recover, recover_status}
use floatlab_core.ManagementUpdate.Transaction.{rollback}
use floatlab_core.ManagementUpdate.Ended.{Ended, comes_to_end, has_ended, read_first, recover-Ended}

abbrev all_works : Env
all_works = record {
  backend = λ n op s. record { failure = none; captured = s.captured };
  write = λ n. written;
  now = λ n. n;
}

abbrev quiet_host : Host
quiet_host = record {
  lock = λ n. none;
  read = λ n. none;
  host_file = λ n. absent;
  valid_release = λ r. true;
  valid_upstream = λ u. true;
}

abbrev fresh_install : World
fresh_install = record { effects = 0; disk = none; history = []; running = false; events = [] }

abbrev upgrade : Request
upgrade = record {
  upstream = "";
  skip_dry_run = false;
  operation_id = "op-1";
  release = "manage-v1.2.0";
  actor = "admin";
  idempotency_key = "";
}

abbrev taken : (Result Status × Option Status) × World
taken = start all_works quiet_host upgrade fresh_install

abbrev taken_status : Status
taken_status = record (new_status all_works quiet_host upgrade 4) { updated_at = 5 }

was_taken : taken.0.1 ≡ some taken_status
unfolding start begin ask read_status host_available save is_invalid valid_operation_id lookup
was_taken = refl

upgraded : Reach (run_started all_works quiet_host taken_status taken.1).1
upgraded = starts_and_runs all_works quiet_host upgrade taken_status (installed 0) was_taken

Reach-Inv_example : Inv (run_started all_works quiet_host taken_status taken.1).1
Reach-Inv_example = Reach-Inv upgraded

-- The process stopped while it installed.
abbrev interrupted : World
interrupted = record fresh_install { disk = some (record taken_status { phase = installing }) }

recovered_now : (recover all_works quiet_host interrupted).0 ≡ none
unfolding recover ask read_status recover_status rollback step save call
recovered_now = refl

recover-Ended_example :
    (s : Status) × ((read_first all_works quiet_host interrupted).0 ≡ ok s)
    × Ended s interrupted (recover all_works quiet_host interrupted).1
    × (has_ended (recover all_works quiet_host interrupted).1 ≡ comes_to_end s)
recover-Ended_example = recover-Ended all_works quiet_host interrupted recovered_now
