-- ===== src/Group/Changes/Pages.antt =====
-- server/src/do/group/changes.ts, `changesSince`: what one page holds and where it leaves the cursor.
use opensplit.Prelude.{ℕ, ◌≡◌, Bool, ltb, map, ◌==◌, ◌&&◌, any_row, rows_where, sort_by}
use opensplit.Group.Schema.{EntryRow, EntryPayerRow, EntryShareRow, Entry}
use opensplit.Group.Tables.{Db, EventRow}
use opensplit.Group.Action.{Action}
use opensplit.Group.Action.Returns.{Returns}
use opensplit.Group.Changes.{GroupChanges, in_window}
use opensplit.Group.Changes.Paging.{Reaches}

-- On a page are the entries and the events whose numbers lie behind the cursor it came from and
-- not behind the one it leaves, by any test of a row.
pub record HoldsWindow (s : Db) (since : ℕ) (g : GroupChanges) : Type 0 where
  pub entries :
      (p : EntryRow → Bool)
      → any_row (λ (e : Entry). p e.row) g.entries
        ≡ any_row (λ e. in_window since g.seq e.seq && p e) s.entries
  pub events :
      (p : EventRow → Bool)
      → any_row p g.events ≡ any_row (λ e. in_window since g.seq e.seq && p e) s.events

-- An entry with all of its payers and shares, in the order of their rows.
abbrev pub whole_entry : Db → EntryRow → Entry
whole_entry s e = record {
  row = e;
  payers =
      map (λ r. r.payer) (rows_where (λ (r : EntryPayerRow). r.entry_id == e.id) s.entry_payers);
  shares =
      map (λ r. r.share) (rows_where (λ (r : EntryShareRow). r.entry_id == e.id) s.entry_shares);
}

-- The page holds the group and each member that changed after the cursor it came from, and the
-- entries, whole, and the events of its window, each once and by their numbers.
pub record Lists (s : Db) (since : ℕ) (g : GroupChanges) : Type 0 where
  pub group : g.group ≡ s.meta
  pub members : g.members ≡ sort_by (λ m. m.seq) (rows_where (λ m. ltb since m.seq) s.members)
  pub entries :
      g.entries
      ≡ map
          (whole_entry s)
          (sort_by (λ e. e.seq) (rows_where (λ e. in_window since g.seq e.seq) s.entries))
  pub events :
      g.events
      ≡ sort_by
          (λ e. e.seq)
          (sort_by (λ e. e.ordinal) (rows_where (λ e. in_window since g.seq e.seq) s.events))

abbrev pub IsPageOf : Db → ℕ → GroupChanges → Type 0
IsPageOf s since g = Reaches s since g × HoldsWindow s since g × Lists s since g
