-- ===== src/Group/Events.antt =====
-- server/src/do/group/events.ts: the activity record, derived from what was committed.
use opensplit.Prelude.{
  ℕ, Bool, false, ◌&&◌, not, Option, none, some, List, [], ◌∷◌, ◌++◌, length, map, rows_where,
  any_row, sort_by, ltb, ◌==◌, same, if◌then◌else◌,
}
use opensplit.Group.Schema.{EntryRow, MoneyRow, Share, EntrySnapshot, EntrySnapshot-discrete}
use opensplit.Group.Tables.{EventBody, entry, EventRow}
use opensplit.Group.Action.{Action, gets, modify, check, run_if, events_position, ◌>>=◌, ◌>>◌}
use opensplit.Group.Store.{random_uuid}

pub record Written : Type 0 where
  pub seq : ℕ
  pub now : ℕ
  pub actor_id : Option ℕ

-- One line of activity, placed behind the lines that the same change has appended already.
unfoldable pub append : Written → EventBody → Action (Unit {0})
append w body = do
  ordinal ← gets (λ s. length (rows_where (λ e. e.seq == w.seq) s.events))
  taken ← gets (λ s. any_row (λ e. e.seq == w.seq && e.ordinal == ordinal) s.events)
  id ← random_uuid
  check (not taken) events_position
  modify (λ s. record s {
    events =
        s.events
        ++ record {
          id = id;
          actor_id = w.actor_id;
          created_at = w.now;
          body = body;
          seq = w.seq;
          ordinal = ordinal;
        }
          ∷ [];
  })

-- `byMember` orders rows by member; the sort of the language is stable.
unfoldable pub money_rows : List MoneyRow → List MoneyRow
money_rows rows = sort_by (λ r. r.member_id) rows

abbrev pub to_money : Share → MoneyRow
to_money s = record { member_id = s.member_id; amount_minor = s.amount_minor }

unfoldable pub snapshot_of : EntryRow → List MoneyRow → List Share → EntrySnapshot
unfolding money_rows
snapshot_of e payers shares = record {
  kind = e.kind;
  description = e.description;
  currency = e.currency;
  amount_minor = e.amount_minor;
  entry_date = e.entry_date;
  split_kind = e.split_kind;
  category_id = e.category_id;
  notes = e.notes;
  deleted_at = e.deleted_at;
  payers = money_rows payers;
  shares = money_rows (map to_money shares);
}

-- The newest snapshot of an entry: `order by seq desc limit 1`.
abbrev newer : ℕ → EntrySnapshot → Option (ℕ × EntrySnapshot) → Option (ℕ × EntrySnapshot)
newer seq snapshot none = some (seq, snapshot)
newer seq snapshot (some (n, old)) = if ltb seq n then some (n, old) else some (seq, snapshot)

abbrev consider : ℕ → ℕ → EventBody → Option (ℕ × EntrySnapshot) → Option (ℕ × EntrySnapshot)
consider id seq (entry subject snapshot) best =
    if subject == id then newer seq snapshot best else best
consider id seq _ best = best

unfoldable pub latest_snapshot : ℕ → List EventRow → Option (ℕ × EntrySnapshot)
latest_snapshot id [] = none
latest_snapshot id (e ∷ es) = consider id e.seq e.body (latest_snapshot id es)

abbrev says : EntrySnapshot → Option (ℕ × EntrySnapshot) → Bool
says snapshot none = false
says snapshot (some (_, previous)) = same EntrySnapshot-discrete previous snapshot

-- Appends a snapshot unless the latest one says the same. The two compare as JSON in the source,
-- which tells any two snapshots apart that differ.
unfoldable pub append_snapshot : EntryRow → List MoneyRow → List Share → Written → Action (Unit {0})
unfolding append snapshot_of latest_snapshot
append_snapshot e payers shares w = do
  let snapshot = snapshot_of e payers shares
  told ← gets (λ s. says snapshot (latest_snapshot e.id s.events))
  run_if (not told) (append w (entry e.id snapshot))
