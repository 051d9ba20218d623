-- ===== src/Group/Ledger.antt =====
-- server/src/do/group/ledger.ts, `putEntry`: records, edits, deletes or restores an expense, whole.
pub mod Stored
pub mod Retry
use opensplit.Prelude.{
  ℕ, ltb, Bool, true, false, ◌&&◌, not, Option, none, some, List, [], ◌∷◌, ◌++◌, map, rows_where,
  any_row, is_some, or_else, ◌==◌, same, case_of, if◌then◌else◌,
}
use opensplit.Prelude.Text.{Option-ℕ-discrete, Option-Text-discrete}
use opensplit.Group.Schema.{
  EntryKind-discrete, EntryRow, MoneyRow, Share, EntryPayerRow, EntryShareRow, Entry, EntryInput,
  Comparable-discrete,
}
use opensplit.Group.Refusal.{malformed, stale_base}
use opensplit.Group.Action.{
  Action, pure, gets, modify, refuse_if, check, amount_positive, moment_complete, fx_complete,
  fx_rate_positive, primary_key, ◌>>=◌, ◌>>◌,
}
use opensplit.Group.Store.{WriteContext, next_seq, holds}
use opensplit.Group.Events.{append_snapshot}
use opensplit.Group.Entries.{
  read_entry, require_entry, assert_balanced, assert_settlement, assert_members_exist, repeats,
  payer_ids, share_ids, comparable_input, comparable_entry,
}
use opensplit.Group.Departed.{assert_departed_only_settle}

-- An edit must be composed on the version stored now; a null base claims that the row is new.
unfoldable pub assert_base_is_current : Entry → EntryInput → Action (Unit {0})
assert_base_is_current stored input = refuse_if (not (holds input.base_seq stored.seq)) stale_base

abbrev xnor : Bool → Bool → Bool
xnor true b = b
xnor false b = not b

abbrev positive : Option ℕ → Bool
positive none = true
positive (some n) = ltb 0 n

-- The CHECK constraints of the entries table.
unfoldable pub check_entry : EntryRow → Action (Unit {0})
check_entry e = do
  check (ltb 0 e.amount_minor) amount_positive
  check (positive e.fx_rate) fx_rate_positive
  check (xnor (is_some e.occurred_at) (is_some e.time_zone)) moment_complete
  check
      (xnor (is_some e.fx_rate) (is_some e.fx_source) && xnor (is_some e.fx_rate) (is_some e.fx_at))
      fx_complete

-- `insert … on conflict (id) do update`: authorship and creation time are never rewritten.
unfoldable pub upsert_entry : EntryRow → List EntryRow → List EntryRow
upsert_entry new [] = new ∷ []
upsert_entry new (e ∷ es) =
    if e.id == new.id
    then record new { created_by = e.created_by; created_at = e.created_at } ∷ es
    else e ∷ upsert_entry new es

-- The constraints of the payers table on the rows of one entry; shares may be zero.
unfoldable pub check_payers : List MoneyRow → Action (Unit {0})
check_payers payers = do
  check (not (repeats (payer_ids payers))) primary_key
  check (not (any_row (λ p. p.amount_minor == 0) payers)) amount_positive

unfoldable pub replace_payers : ℕ → List MoneyRow → List EntryPayerRow → List EntryPayerRow
replace_payers id payers rows =
    rows_where (λ r. not (r.entry_id == id)) rows
    ++ map (λ p. record { entry_id = id; payer = p }) payers

unfoldable pub replace_shares : ℕ → List Share → List EntryShareRow → List EntryShareRow
replace_shares id shares rows =
    rows_where (λ r. not (r.entry_id == id)) rows
    ++ map (λ p. record { entry_id = id; share = p }) shares

abbrev same_rate : Option Entry → EntryInput → Bool
same_rate none input = false
same_rate (some e) input =
    same Option-ℕ-discrete e.fx_rate input.fx_rate
    && same Option-Text-discrete e.fx_source input.fx_source

abbrev stored_fx_at : Option Entry → Option ℕ
stored_fx_at none = none
stored_fx_at (some e) = e.fx_at

abbrev stored_deleted_at : Option Entry → Option ℕ
stored_deleted_at none = none
stored_deleted_at (some e) = e.deleted_at

-- A rate keeps its time unless the rate or its source changed.
unfoldable pub fx_at_of : Option Entry → EntryInput → ℕ → Option ℕ
fx_at_of stored input now =
    if same_rate stored input
    then stored_fx_at stored
    else if is_some input.fx_rate
    then some now
    else none

-- The device says whether; the server's clock says when, once.
unfoldable pub deleted_at_of : Option Entry → EntryInput → ℕ → Option ℕ
deleted_at_of stored input now =
    if is_some input.deleted_at then some (or_else (stored_deleted_at stored) now) else none

-- The three tables of an expense: the row, then its payers, then its shares.
unfoldable pub write_rows : EntryRow → List MoneyRow → List Share → Action (Unit {0})
unfolding check_entry upsert_entry check_payers replace_payers replace_shares
write_rows row payers shares = do
  check_entry row
  modify (λ s. record s { entries = upsert_entry row s.entries })
  check_payers payers
  modify (λ s. record s { entry_payers = replace_payers row.id payers s.entry_payers })
  check (not (repeats (share_ids shares))) primary_key
  modify (λ s. record s { entry_shares = replace_shares row.id shares s.entry_shares })

-- The row that a write leaves behind, if the entry is new.
unfoldable pub new_row : ℕ → Option Entry → EntryInput → WriteContext → ℕ → EntryRow
unfolding fx_at_of deleted_at_of
new_row id stored input c seq = record {
  id = id;
  columns = input.columns;
  fx_at = fx_at_of stored input c.now;
  created_by = c.actor.id;
  created_at = c.now;
  updated_at = c.now;
  deleted_at = deleted_at_of stored input c.now;
  seq = seq;
}

-- An expense written whole at one sequence number, and what the activity record says of it.
unfoldable pub write_entry : ℕ → Option Entry → EntryInput → WriteContext → Action Entry
unfolding write_rows new_row
write_entry id stored input c = do
  seq ← next_seq
  write_rows (new_row id stored input c seq) input.payers input.shares
  entry ← require_entry id
  append_snapshot entry.row entry.payers entry.shares
      (record { seq = seq; now = c.now; actor_id = some c.actor.id })
  pure entry

-- The rules on an edit of a stored entry that changes something.
unfoldable pub assert_edit : Option Entry → EntryInput → Action (Unit {0})
unfolding assert_base_is_current
assert_edit none input = pure tt
assert_edit (some e) input = do
  assert_base_is_current e input
  refuse_if (not (same EntryKind-discrete e.kind input.kind)) malformed

-- Whether a retry found its own row, unchanged.
unfoldable pub unchanged : Option Entry → EntryInput → Option Entry
unchanged none input = none
unchanged (some e) input =
    if same Comparable-discrete (comparable_entry e) (comparable_input input) then some e else none

unfoldable pub put_new_version : ℕ → Option Entry → EntryInput → WriteContext → Action Entry
unfolding assert_edit assert_settlement assert_departed_only_settle write_entry
put_new_version id stored input c = do
  assert_edit stored input
  assert_settlement input
  assert_departed_only_settle stored input
  write_entry id stored input c

unfoldable pub put_entry : ℕ → EntryInput → WriteContext → Action Entry
unfolding assert_balanced assert_members_exist unchanged put_new_version
put_entry id input c = do
  assert_balanced input
  assert_members_exist input
  stored ← gets (λ s. read_entry s id)
  case_of (unchanged stored input) (put_new_version id stored input c) pure
