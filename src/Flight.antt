-- ===== src/Flight.antt =====
-- The one definition of "still moving" (backend/lftpweb/core/pipeline_flight.py). The module
-- builds SQL text; here it builds the expressions that the text denotes, and `eval` gives them
-- SQLite's meaning, with `none` for NULL.
pub mod Sql
pub mod Laws
use lftpweb.Common.{ℕ, Bool, true, false, ◌||◌, Option, none, some, List, [], ◌∷◌, if◌then◌else◌}
use lftpweb.Item.{
  ItemState, ArrStatus, verifying, extracting, detected, notified, dropped, imported, cleaned,
}
use lftpweb.Flight.Sql.{
  Clause, JobState, Column, zero_literal, job_state_in, item_id_in, item_state_is, enabled_is_one,
  arr_status_in, age_below, is_null, is_not_null, both, either, negate, or_zero, queued, running,
  manual_outcome, remote_delete_pending, remote_deleted_at, FlightRow, eval, holds,
}

-- `ARR_IN_FLIGHT_STATES`
abbrev pub arr_in_flight_states : List ArrStatus
arr_in_flight_states = detected ∷ notified ∷ dropped ∷ []

-- `ARR_TERMINAL_IMPORT_STATES`
abbrev pub arr_terminal_import_states : List ArrStatus
arr_terminal_import_states = imported ∷ cleaned ∷ []

-- `ARR_WAIT_MAX_S`, in seconds
abbrev pub arr_wait_max : ℕ
arr_wait_max = 86_400

-- `SOURCE_DELETE_WAIT_MAX_S`, in seconds
abbrev pub source_delete_wait_max : ℕ
source_delete_wait_max = 3_600

pub data Reason : Type 0 where
  processing verifying_files extracting_files awaiting_import deleting_source : Reason

-- `_in_flight_ids_clause`; the source sorts the ids and drops duplicates, which `IN` does not see.
unfoldable pub in_flight_ids_clause : List ℕ → Clause
in_flight_ids_clause [] = zero_literal
in_flight_ids_clause (i ∷ ids) = item_id_in (i ∷ ids)

-- `_arr_clause`
unfoldable pub arr_clause : Clause
arr_clause =
    both enabled_is_one (both (arr_status_in arr_in_flight_states) (age_below arr_wait_max))

-- `_source_delete_clause`
unfoldable pub source_delete_clause : Clause
source_delete_clause = both enabled_is_one (
    both (is_not_null remote_delete_pending) (
      both (arr_status_in arr_terminal_import_states)
        (both (is_null remote_deleted_at) (age_below source_delete_wait_max))))

-- `JOB_ACTIVE_CLAUSE`
abbrev pub job_active_clause : Clause
job_active_clause = job_state_in (queued ∷ running ∷ [])

unfoldable pub item_pipeline_busy_expr : List ℕ → Clause
item_pipeline_busy_expr ids = or_zero (
    both (is_null manual_outcome)
      (either (either (in_flight_ids_clause ids) arr_clause) source_delete_clause))

unfoldable pub in_flight_expr : List ℕ → Clause
in_flight_expr ids = or_zero (either job_active_clause (item_pipeline_busy_expr ids))

-- The branches of the `CASE`, in order; `ELSE NULL`.
unfoldable pub waiting_reason_expr : List ℕ → List (Clause × Option Reason)
waiting_reason_expr ids =
    let postprocess = in_flight_ids_clause ids in
    (job_active_clause, none)
    ∷ (negate (item_pipeline_busy_expr ids), none)
    ∷ (both postprocess (item_state_is extracting), some extracting_files)
    ∷ (both postprocess (item_state_is verifying), some verifying_files)
    ∷ (postprocess, some processing)
    ∷ (arr_clause, some awaiting_import)
    ∷ (source_delete_clause, some deleting_source)
    ∷ []

-- `CASE WHEN ... THEN ... END`: the first branch whose condition is true.
unfoldable pub case_when : List (Clause × Option Reason) → FlightRow → Option Reason
case_when [] row = none
case_when ((c, r) ∷ rest) row =
    let later = case_when rest row in if holds (eval c row) then r else later
