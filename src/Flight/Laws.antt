-- ===== src/Flight/Laws.antt =====
-- The two boxes and the waiting reason agree (backend/lftpweb/core/pipeline_flight.py), and no row
-- stays in the Active box forever.
use lftpweb.Common.{
  ℕ, ◌≤◌, ◌≡◌, ◌≢◌, ◌⊎◌, inl, inr, refl, Bool, true, false, not, ◌||◌, ◌&&◌, Option, none, some,
  List, [], ◌∷◌, elem, arith, is_some,
}
use lftpweb.Flight.Sql.{FlightRow, eval, holds, manual_outcome, and3, or3, not3, coalesce_false}
use lftpweb.Flight.{
  Reason, in_flight_ids_clause, arr_clause, source_delete_clause, job_active_clause,
  item_pipeline_busy_expr, in_flight_expr, waiting_reason_expr, case_when, arr_wait_max,
}

abbrev pub is_active : FlightRow → Bool
is_active row = holds (eval job_active_clause row)

abbrev pub is_busy : List ℕ → FlightRow → Bool
is_busy ids row = holds (eval (item_pipeline_busy_expr ids) row)

abbrev pub is_in_flight : List ℕ → FlightRow → Bool
is_in_flight ids row = holds (eval (in_flight_expr ids) row)

abbrev pub reason_of : List ℕ → FlightRow → Option Reason
reason_of ids row = case_when (waiting_reason_expr ids) row

holds-or3 : (a b : Option Bool) → holds (or3 a b) ≡ (holds a || holds b)
holds-or3 a b = ground arith

holds-and3 : (a b : Option Bool) → holds (and3 a b) ≡ (holds a && holds b)
holds-and3 a b = ground arith

holds_coalesce : (a : Option Bool) → holds (coalesce_false a) ≡ holds a
holds_coalesce a = ground arith

holds-not_coalesce : (a : Option Bool) → holds (not3 (coalesce_false a)) ≡ not (holds a)
holds-not_coalesce a = ground arith

holds-some : (b : Bool) → holds (some b) ≡ b
holds-some b = ground arith

-- Whether the item's pipeline is busy, in two-valued terms.
is_busy_lem :
    (ids : List ℕ) (row : FlightRow)
    → is_busy ids row ≡ (
        not (row.present manual_outcome)
        && (holds (eval (in_flight_ids_clause ids) row)
            || (holds (eval arr_clause row) || holds (eval source_delete_clause row))))
unfolding item_pipeline_busy_expr eval
is_busy_lem ids row = ground (arith)

-- The item half of the predicate is never NULL.
eval-busy :
    (ids : List ℕ) (row : FlightRow)
    → eval (item_pipeline_busy_expr ids) row ≡ some (is_busy ids row)
unfolding item_pipeline_busy_expr eval
eval-busy ids row = ground arith

-- Nor is the whole predicate: a row is in the Active box or in the Complete box.
pub eval-in_flight :
    (ids : List ℕ) (row : FlightRow)
    → eval (in_flight_expr ids) row ≡ some (is_active row || is_busy ids row)
unfolding in_flight_expr eval
eval-in_flight ids row = ground (arith, eval-busy ids row)

-- A row carries a waiting reason exactly if it is in the Active box and its job is neither queued
-- nor running, whatever is NULL in it.
pub reason_iff_waiting :
    (ids : List ℕ) (row : FlightRow)
    → is_some (reason_of ids row) ≡ (is_in_flight ids row && not (is_active row))
unfolding waiting_reason_expr case_when eval
reason_iff_waiting ids row =
    ground (arith, eval-busy ids row, is_busy_lem ids row, eval-in_flight ids row)

-- Nobody but the poller of an enabled instance works on the row: no worker holds its item, and
-- the instance is disabled or unknown, or its status is a day old or of unknown age.
pub data Abandoned (row : FlightRow) : Type 0 where
  not_enabled : row.enabled ≢ some true → Abandoned row
  unknown_age : row.age ≡ none → Abandoned row
  too_old : (a : ℕ) → row.age ≡ some a → arr_wait_max ≤ a → Abandoned row
  settled_by_hand : row.present manual_outcome ≡ true → Abandoned row

-- No clause but the worker's holds of an abandoned row, unless an override hides them all.
record Idle (row : FlightRow) : Type 0 where
  arr : holds (eval arr_clause row) ≡ false
  source_delete : holds (eval source_delete_clause row) ≡ false

Abandoned-Idle : (row : FlightRow) → Abandoned row → (row.present manual_outcome ≡ true) ⊎ Idle row
unfolding arr_clause source_delete_clause eval
Abandoned-Idle row (not_enabled h) =
    inr (record { arr = ground arith; source_delete = ground arith })
Abandoned-Idle row (unknown_age h) =
    inr (record { arr = ground arith; source_delete = ground arith })
Abandoned-Idle row (too_old a h l) =
    inr (record { arr = ground arith; source_delete = ground arith })
Abandoned-Idle row (settled_by_hand h) = inl h

not_held :
    (ids : List ℕ) (row : FlightRow)
    → elem row.item_id ids ≡ false
    → holds (eval (in_flight_ids_clause ids) row) ≡ false
unfolding in_flight_ids_clause eval
not_held [] row h = refl
not_held (i ∷ ids) row h = ground arith

-- A finished job's row leaves the Active box once its item is abandoned and no worker holds it.
pub Abandoned-leaves :
    (ids : List ℕ) (row : FlightRow)
    → is_active row ≡ false
    → elem row.item_id ids ≡ false
    → Abandoned row
    → is_in_flight ids row ≡ false
Abandoned-leaves ids row a h g = elim (Abandoned-Idle row g) [
  | inl hand ↦ ground (arith, eval-in_flight ids row, is_busy_lem ids row)
  | inr idle ↦ ground (
    arith,
    eval-in_flight ids row,
    is_busy_lem ids row,
    not_held ids row h,
    idle.arr,
    idle.source_delete,
  )
]
