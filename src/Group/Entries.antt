-- ===== src/Group/Entries.antt =====
-- server/src/do/group/ledger.ts, what an expense is: reading it back whole, the checks that look
-- at the input alone or at who it names, and what makes two versions of it the same.
use opensplit.Prelude.{
  ℕ, ◌+◌, Bool, true, false, ◌&&◌, ◌||◌, not, Option, none, some, List, [], ◌∷◌, ◌++◌, map,
  find_row, rows_where, any_row, sort_by, is_some, is_none, ◌==◌,
}
use opensplit.Group.Schema.{
  EntryKind, expense, settlement, EditableColumns, EntryRow, MoneyRow, Share, EntryPayerRow,
  EntryShareRow, Entry, EntryInput, Comparable,
}
use opensplit.Group.Refusal.{unbalanced, malformed, no_such_member, no_such_entry}
use opensplit.Group.Tables.{Db}
use opensplit.Group.Action.{Action, gets, or_refuse, refuse_if, ◌>>=◌, ◌>>◌}
use opensplit.Group.Store.{find_member}
use opensplit.Group.Events.{money_rows, to_money}

-- The payers and shares of one entry, in the order of the rows.
unfoldable pub payers_of : ℕ → List EntryPayerRow → List MoneyRow
payers_of id rows = map (λ r. r.payer) (rows_where (λ r. r.entry_id == id) rows)

unfoldable pub shares_of : ℕ → List EntryShareRow → List Share
shares_of id rows = map (λ r. r.share) (rows_where (λ r. r.entry_id == id) rows)

-- Entries with their payers and shares. The source reads the children in three queries and groups
-- them by entry, with the same answer.
unfoldable pub read_entries : Db → List EntryRow → List Entry
unfolding payers_of shares_of
read_entries s rows =
    map
      (λ e. record {
        row = e;
        payers = payers_of e.id s.entry_payers;
        shares = shares_of e.id s.entry_shares;
      })
      rows

abbrev head? : List Entry → Option Entry
head? [] = none
head? (e ∷ _) = some e

abbrev pub read_row : Db → Option EntryRow → Option Entry
read_row s none = none
read_row s (some e) = head? (read_entries s (e ∷ []))

unfoldable pub read_entry : Db → ℕ → Option Entry
unfolding read_entries
read_entry s id = read_row s (find_row (λ e. e.id == id) s.entries)

unfoldable pub require_entry : ℕ → Action Entry
unfolding read_entry
require_entry id s = or_refuse (read_entry s id) no_such_entry s

unfoldable pub sum_payers : List MoneyRow → ℕ
sum_payers [] = 0
sum_payers (p ∷ ps) = p.amount_minor + sum_payers ps

unfoldable pub sum_shares : List Share → ℕ
sum_shares [] = 0
sum_shares (p ∷ ps) = p.amount_minor + sum_shares ps

-- `sum(payers) = sum(shares) = amount`
unfoldable pub assert_balanced : EntryInput → Action (Unit {0})
assert_balanced input =
    refuse_if
      (not (sum_payers input.payers == input.amount_minor)
        || not (sum_shares input.shares == input.amount_minor))
      unbalanced

abbrev pub is_settlement : EntryKind → Bool
is_settlement settlement = true
is_settlement expense = false

abbrev pub between_two : List MoneyRow → List Share → Bool
between_two (p ∷ []) (s ∷ []) = not (p.member_id == s.member_id)
between_two _ _ = false

-- A live payment moves the whole amount between two different people.
unfoldable pub assert_settlement : EntryInput → Action (Unit {0})
assert_settlement input =
    refuse_if
      (is_settlement input.kind
        && is_none input.deleted_at
        && not (between_two input.payers input.shares))
      malformed

-- Whether the same id is listed twice, which a `Set` of them shows by its size.
unfoldable pub repeats : List ℕ → Bool
repeats [] = false
repeats (x ∷ xs) = any_row (λ y. y == x) xs || repeats xs

abbrev pub payer_ids : List MoneyRow → List ℕ
payer_ids = map (λ p. p.member_id)

abbrev pub share_ids : List Share → List ℕ
share_ids = map (λ p. p.member_id)

unfoldable pub all_known : Db → List ℕ → Bool
unfolding find_member
all_known s [] = true
all_known s (id ∷ ids) = is_some (find_member s id) && all_known s ids

-- The source counts the members that match the distinct ids; a member's id is unique, so the
-- counts agree exactly when each id is known.
unfoldable pub assert_members_exist : EntryInput → Action (Unit {0})
unfolding repeats all_known
assert_members_exist input = do
  refuse_if (repeats (payer_ids input.payers)) malformed
  refuse_if (repeats (share_ids input.shares)) malformed
  known ← gets (λ s. all_known s (payer_ids input.payers ++ share_ids input.shares))
  refuse_if (not known) no_such_member

-- What moves a balance, and everything else that a save can change.
unfoldable pub comparable : EditableColumns → Option ℕ → List MoneyRow → List Share → Comparable
unfolding money_rows
comparable columns deleted_at payers shares = record {
  columns = columns;
  counts = is_none deleted_at;
  amount_minor = columns.amount_minor;
  payers = money_rows payers;
  shares = money_rows (map to_money shares);
  weights = map (λ s. s.weight_micros) (sort_by (λ (s : Share). s.member_id) shares);
}

unfoldable pub comparable_input : EntryInput → Comparable
unfolding comparable
comparable_input i = comparable i.columns i.deleted_at i.payers i.shares

unfoldable pub comparable_entry : Entry → Comparable
unfolding comparable
comparable_entry e = comparable e.row.columns e.deleted_at e.payers e.shares
