-- ===== src/Settle/Store.antt =====
-- The table `item_settle` and its readers (backend/lftpweb/core/settle.py, the persistence
-- section): what is written for an item is what both readers see.
use lftpweb.Common.{
  refl, ℕ, ◌+◌, String, ◌≡◌, Bool, false, ◌&&◌, Option, none, some, List, [], ◌∷◌, arith, ◌∙◌, leb,
  ltb, ◌==◌, ◌=s◌, eq_iff, if◌then◌else◌,
}
use lftpweb.Common.Dict.{Dict, lookup, or_else, last_given}
use lftpweb.Common.Stamp.{Stamps, format_opt, parse_opt, parse_opt-format_opt}
use lftpweb.Settle.{is_settled, SettleRecord, required_settle_scans, settle_min_age}

-- One row of `item_settle`; the table's primary key is (queue_id, rel_path).
pub record Row : Type 0 where
  pub queue_id : ℕ
  pub rel_path : String
  pub file_count : ℕ
  pub total_bytes : ℕ
  pub max_mtime : Option ℕ
  pub matched_scans : ℕ
  pub updated_at : String
  pub first_observed_at : Option String
  pub last_changed_at : Option String

abbrev pub Table : Type 0
Table = List Row

abbrev pub same_key : ℕ → String → Row → Bool
same_key q path row = row.queue_id == q && row.rel_path =s path

-- `INSERT ... ON CONFLICT (queue_id, rel_path) DO UPDATE SET ...`, which sets every other column.
unfoldable pub upsert : Row → Table → Table
upsert row [] = row ∷ []
upsert row (r ∷ table) =
    if same_key row.queue_id row.rel_path r then row ∷ table else r ∷ upsert row table

-- `SELECT ... WHERE queue_id = ? AND rel_path = ?` with `fetchone`
unfoldable pub select_one : ℕ → String → Table → Option Row
select_one q path [] = none
select_one q path (r ∷ table) = if same_key q path r then some r else select_one q path table

-- `SettleProgress`
pub record SettleProgress : Type 0 where
  pub matched_scans : ℕ
  pub first_matched_at : String

module _ (st : Stamps) where
  abbrev pub row_of : ℕ → String → SettleRecord → Row
  row_of q path r = record {
    queue_id = q;
    rel_path = path;
    file_count = r.fingerprint.file_count;
    total_bytes = r.fingerprint.total_bytes;
    max_mtime = r.fingerprint.max_mtime;
    matched_scans = r.matched_scans;
    updated_at = st.format r.first_matched_at;
    first_observed_at = format_opt st r.first_observed_at;
    last_changed_at = format_opt st r.last_changed_at;
  }

  abbrev pub record_of : Row → SettleRecord
  record_of row = record {
    fingerprint = record {
      file_count = row.file_count;
      total_bytes = row.total_bytes;
      max_mtime = row.max_mtime;
    };
    matched_scans = row.matched_scans;
    first_matched_at = st.parse row.updated_at;
    first_observed_at = parse_opt st row.first_observed_at;
    last_changed_at = parse_opt st row.last_changed_at;
  }

  unfoldable pub save_settle_records : ℕ → Dict SettleRecord → Table → Table
  save_settle_records q [] table = table
  save_settle_records q ((path, r) ∷ records) table =
      save_settle_records q records (upsert (row_of q path r) table)

  -- The rows of one queue, as a dictionary.
  unfoldable pub load_settle_records : ℕ → Table → Dict SettleRecord
  load_settle_records q [] = []
  load_settle_records q (row ∷ table) =
      let rest = load_settle_records q table in
      if row.queue_id == q then (row.rel_path, record_of row) ∷ rest else rest

  unfoldable pub settle_progress_in_db : ℕ → String → Table → Option SettleProgress
  settle_progress_in_db q path table = elim (select_one q path table) [
    | none ↦ none
    | some row ↦
        some (record { matched_scans = row.matched_scans; first_matched_at = row.updated_at })
  ]

  unfoldable pub is_settled_from_progress : Option SettleProgress → ℕ → Bool
  is_settled_from_progress none now = false
  is_settled_from_progress (some p) now =
      if ltb p.matched_scans required_settle_scans
      then false
      else leb (st.parse p.first_matched_at + settle_min_age) now

  unfoldable pub is_settled_in_db : ℕ → String → Table → ℕ → Bool
  unfolding settle_progress_in_db is_settled_from_progress
  is_settled_in_db q path table now =
      is_settled_from_progress (settle_progress_in_db q path table) now

  record_of-row_of : (q : ℕ) (path : String) (r : SettleRecord) → record_of (row_of q path r) ≡ r
  record_of-row_of q path r = ground (
    arith,
    st.parse-format r.first_matched_at,
    parse_opt-format_opt st r.first_observed_at,
    parse_opt-format_opt st r.last_changed_at,
  )

  lookup-load-upsert :
      (q : ℕ) (path key : String) (r : SettleRecord) (table : Table)
      → lookup key (load_settle_records q (upsert (row_of q path r) table))
        ≡ (if path =s key then some r else lookup key (load_settle_records q table))
  unfolding lookup load_settle_records upsert
  lookup-load-upsert q path key r [] = ground (arith, record_of-row_of q path r)
  lookup-load-upsert q path key r (row ∷ table) = ground (
    arith,
    record_of-row_of q path r,
    eq_iff row.rel_path path,
    eq_iff row.rel_path key,
    eq_iff path key,
    lookup-load-upsert q path key r table,
  )

  other_queue-load-upsert :
      (q p : ℕ) (path : String) (r : SettleRecord) (table : Table)
      → (p == q) ≡ false
      → load_settle_records q (upsert (row_of p path r) table) ≡ load_settle_records q table
  unfolding load_settle_records upsert
  other_queue-load-upsert q p path r [] h = ground arith
  other_queue-load-upsert q p path r (row ∷ table) h =
      ground (arith, other_queue-load-upsert q p path r table)

  -- Loading a queue after saving records for it gives each path the record that was saved for it,
  -- and every other path the record that it had.
  pub load-save :
      (q : ℕ) (key : String) (records : Dict SettleRecord) (table : Table)
      → lookup key (load_settle_records q (save_settle_records q records table))
        ≡ or_else (last_given key records) (lookup key (load_settle_records q table))
  unfolding save_settle_records last_given
  load-save q key [] table = refl
  load-save q key ((path, r) ∷ records) table = ground (
    arith,
    load-save q key records (upsert (row_of q path r) table),
    lookup-load-upsert q path key r table,
  )

  -- Saving records for one queue changes nothing of what another queue loads.
  pub load-save_other :
      (q p : ℕ) (records : Dict SettleRecord) (table : Table)
      → (p == q) ≡ false
      → load_settle_records q (save_settle_records p records table) ≡ load_settle_records q table
  unfolding save_settle_records
  load-save_other q p [] table h = refl
  load-save_other q p ((path, r) ∷ records) table h =
      load-save_other q p records (upsert (row_of p path r) table) h
      ∙ other_queue-load-upsert q p path r table h

  -- The narrow reader of one item's row opens the gate exactly when the loaded record does.
  pub is_settled_in_db-is_settled :
      (q : ℕ) (path : String) (table : Table) (now : ℕ)
      → is_settled_in_db q path table now
        ≡ is_settled (lookup path (load_settle_records q table)) now
  unfolding is_settled_in_db select_one load_settle_records lookup is_settled
  is_settled_in_db-is_settled q path [] now = refl
  is_settled_in_db-is_settled q path (row ∷ table) now =
      ground (arith, is_settled_in_db-is_settled q path table now)
