-- ===== src/Group/Ledger/Stored.antt =====
-- server/src/do/group/ledger.ts: what reading an expense back finds, after a write of it.
use opensplit.Prelude.{
  ℕ, ◌≡◌, refl, ◌∙◌, Option, some, List, [], ◌∷◌, find_row, ◌==◌, arith, Bool-cases, inl, inr,
  is_none,
}
use opensplit.Group.Schema.{EntryRow, MoneyRow, Share, Entry, EntryInput}
use opensplit.Group.Tables.{Db, EventBody}
use opensplit.Group.Action.{modify}
use opensplit.Group.Action.Keeps.{Order, Keeps, Keeps-modify, keeps_rules}
use opensplit.Group.Store.{WriteContext, random_uuid}
use opensplit.Group.Events.{Written, append, append_snapshot}
use opensplit.Group.Entries.{
  read_entry, read_entries, comparable_entry, comparable_input, comparable,
}
use opensplit.Group.Ledger.{upsert_entry, new_row, deleted_at_of}
use opensplit.Group.Frame.{with_entry}
use opensplit.Group.Books.Rows.{payers_of-replace, shares_of-replace}

-- The tables that the checks of an expense read.
pub record SameBooks (s t : Db) : Type 0 where
  pub members : t.members ≡ s.members
  pub entries : t.entries ≡ s.entries
  pub payers : t.entry_payers ≡ s.entry_payers
  pub shares : t.entry_shares ≡ s.entry_shares

abbrev pub BooksOrder : Order
BooksOrder = record {
  rel = SameBooks;
  reflexive = λ s. record { members = refl; entries = refl; payers = refl; shares = refl };
  transitive = λ s t u p q. record {
    members = q.members ∙ p.members;
    entries = q.entries ∙ p.entries;
    payers = q.payers ∙ p.payers;
    shares = q.shares ∙ p.shares;
  };
}

modify-books : (f : Db → Db) → ((s : Db) → SameBooks s (f s)) → Keeps BooksOrder (modify f)
modify-books f h = Keeps-modify f h

append-books : (w : Written) (body : EventBody) → Keeps BooksOrder (append w body)
unfolding append random_uuid
append-books w body = search (keeps_rules, modify-books) depth 20

pub append_snapshot-books :
    (e : EntryRow) (payers : List MoneyRow) (shares : List Share) (w : Written)
    → Keeps BooksOrder (append_snapshot e payers shares w)
unfolding append_snapshot
append_snapshot-books e payers shares w = search (keeps_rules, append-books) depth 20

pub read_entry-books : (s t : Db) (id : ℕ) → SameBooks s t → read_entry t id ≡ read_entry s id
unfolding read_entry read_entries
read_entry-books s t id h = rw (h.entries, h.payers, h.shares)

-- The row found under the id of the one just written: authorship apart, the one written.
pub record WrittenRow (new : EntryRow) (es : List EntryRow) : Type 0 where
  pub row : EntryRow
  pub found : find_row (λ e. e.id == new.id) (upsert_entry new es) ≡ some row
  pub same_id : row.id ≡ new.id
  pub columns : row.columns ≡ new.columns
  pub deleted : row.deleted_at ≡ new.deleted_at

pub found_after_upsert : (new : EntryRow) (es : List EntryRow) → WrittenRow new es
unfolding upsert_entry
found_after_upsert new [] = record {
  row = new;
  found = ground arith;
  same_id = refl;
  columns = refl;
  deleted = refl;
}
found_after_upsert new (e ∷ es) = elim (Bool-cases (e.id == new.id)) [
  | inl hit ↦ record {
    row = record new { created_by = e.created_by; created_at = e.created_at };
    found = ground arith;
    same_id = refl;
    columns = refl;
    deleted = refl;
  }
  | inr miss ↦
      let rest = found_after_upsert new es in
      record {
        row = rest.row;
        found = rw (miss, miss) rest.found;
        same_id = rest.same_id;
        columns = rest.columns;
        deleted = rest.deleted;
      }
]

counts_as_input :
    (stored : Option Entry) (input : EntryInput) (now : ℕ)
    → is_none (deleted_at_of stored input now) ≡ is_none input.deleted_at
unfolding deleted_at_of
counts_as_input stored input now = ground arith

-- Right after a write of an expense it is read back, and compares as the input it was made from.
pub read_back :
    (s : Db) (id : ℕ) (stored : Option Entry) (input : EntryInput) (c : WriteContext) (seq : ℕ)
    → (e : Entry) × ((read_entry
            (with_entry (new_row id stored input c seq) input.payers input.shares s)
            id
          ≡ some e)
        × (comparable_entry e ≡ comparable_input input))
unfolding read_entry read_entries comparable_entry comparable_input comparable new_row
read_back s id stored input c seq =
    let new : EntryRow = new_row id stored input c seq in
    let w = found_after_upsert new s.entries in
    (
      record { row = w.row; payers = input.payers; shares = input.shares },
      (
        rw
            (
              w.found,
              w.same_id,
              payers_of-replace id input.payers s.entry_payers,
              shares_of-replace id input.shares s.entry_shares,
            )
            refl,
        rw (w.columns, w.deleted, counts_as_input stored input c.now) refl,
      ),
    )
