-- ===== src/Checks/Flight.antt =====
-- The Active box (backend/lftpweb/core/pipeline_flight.py) at concrete inputs.
use lftpweb.Common.{
  ℕ, ◌≡◌, refl, true, false, not, ◌&&◌, Option, none, some, [], ◌∷◌, is_some, elem, arith,
}
use lftpweb.Item.{ItemState, ArrStatus}
use lftpweb.Flight.Sql.{JobState, FlightRow, eval}
use lftpweb.Flight.{
  awaiting_import, waiting_reason_expr, case_when, item_pipeline_busy_expr, in_flight_ids_clause,
  arr_clause, source_delete_clause,
}
use lftpweb.Flight.Laws.{
  is_active, is_in_flight, reason_of, reason_iff_waiting, Abandoned, Abandoned-leaves,
}

-- A finished download of an enabled queue, notified an hour ago.
abbrev row : Option ℕ → FlightRow
row age = record {
  job_state = JobState.succeeded;
  item_id = 4;
  item_state = ItemState.extracted;
  arr_status = some ArrStatus.notified;
  enabled = some true;
  age = age;
  present = λ _. false;
}

waits_for_import : reason_of [] (row (some 3_600)) ≡ some awaiting_import
unfolding waiting_reason_expr case_when eval in_flight_ids_clause arr_clause source_delete_clause
    item_pipeline_busy_expr elem
waits_for_import = refl

reason_iff_waiting_example :
    is_some (reason_of (4 ∷ []) (row none))
    ≡ (is_in_flight (4 ∷ []) (row none) && not (is_active (row none)))
reason_iff_waiting_example = reason_iff_waiting (4 ∷ []) (row none)

Abandoned-leaves_example : is_in_flight (7 ∷ []) (row (some 90_000)) ≡ false
unfolding eval elem
Abandoned-leaves_example =
    Abandoned-leaves (7 ∷ []) (row (some 90_000)) refl refl
      (Abandoned.too_old 90_000 refl (omega arith))
