-- ===== src/Group/Departed/TowardZero.antt =====
-- server/src/do/group/ledger.ts, `putEntry`: what a save may do to somebody who has left.
use opensplit.Prelude.{ℕ, ◌+◌, ◌≡◌, refl, true, Option, none, some, case_of}
use opensplit.Group.Schema.{Entry, EntryInput}
use opensplit.Group.Tables.{Db}
use opensplit.Group.Action.{done, gets, pure, modify, ◌>>=◌, ◌>>◌, or_refuse}
use opensplit.Group.Action.Returns.{Returns, Returns-bind}
use opensplit.Group.Store.{WriteContext, current_seq, next_seq}
use opensplit.Group.Balances.{position_of}
use opensplit.Group.Books.Rows.{Distinct}
use opensplit.Group.Entries.{read_entry, require_entry}
use opensplit.Group.Events.{Written, append_snapshot}
use opensplit.Group.Refusal.{no_such_entry, forbidden}
use opensplit.Group.Action.Keeps.{Guards, Guards-refuse_if}
use opensplit.Group.Entries.{assert_settlement, assert_balanced, assert_members_exist}
use opensplit.Group.Ledger.{unchanged, assert_edit}
use opensplit.Group.Ledger.Retry.{
  Returns-guard, Returns-read, After-Returns, Returns-weaken, Guards-assert_edit, Known,
  refuse_unless-Returns, assert_members_exist-Known, write_rows-wrote,
}
use opensplit.Group.Frame.{with_entry}
use opensplit.Group.Ledger.{new_row, write_entry, write_rows, put_new_version, put_entry}
use opensplit.Group.Ledger.Stored.{SameBooks, append_snapshot-books}
use opensplit.Group.Departed.{
  departed, has_departed, moved, only_settles, assert_departed_only_settle,
}
use opensplit.Group.Departed.Moved.{unmoved, TowardZero}
use opensplit.Group.Departed.Allowed.{write-TowardZero}

Guards-assert_settlement : (input : EntryInput) → Guards (assert_settlement input)
unfolding assert_settlement
Guards-assert_settlement input = Guards-refuse_if _ _

module _ (s : Db) (m c : ℕ) (left : has_departed (departed s) m ≡ true) (d : Distinct s.entries)
    (id : ℕ) (input : EntryInput) where
  abbrev Moves : Entry → Db → Type 0
  Moves e t = TowardZero (position_of s m c) (position_of t m c)

  finish-Moves :
      (stored : Option Entry) (author : WriteContext) (seq : ℕ) (w : Written) (u : Db)
      → ((t : Db) → SameBooks u t → TowardZero (position_of s m c) (position_of t m c))
      → Returns Moves (
          (do
            entry ← require_entry id
            append_snapshot entry.row entry.payers entry.shares w
            pure entry)
            u)
  unfolding require_entry pure ◌>>=◌ or_refuse
  finish-Moves stored author seq w u moves = go (read_entry u id)
    where
      go :
          (o : Option Entry)
          → Returns Moves (
              ((λ v. or_refuse o no_such_entry v) >>= λ entry. do
                append_snapshot entry.row entry.payers entry.shares w
                pure entry)
                u)
      go none = tt
      go (some e) =
          Returns-bind Moves u (append_snapshot e.row e.payers e.shares w) (λ _ t. done e t)
            (After-Returns (SameBooks u) (λ t. Moves e t) _
              ((append_snapshot-books e.row e.payers e.shares w).at u) moves)

  write_entry-Moves :
      (author : WriteContext)
      → only_settles (position_of s) (moved (departed s) (read_entry s id) input) ≡ true
      → Returns Moves (write_entry id (read_entry s id) input author s)
  unfolding write_entry next_seq gets modify pure ◌>>=◌
  write_entry-Moves author allowed =
      let seq = current_seq s + 1 in
      let bumped : Db = record s { counter = some seq } in
      let row = new_row id (read_entry s id) input author seq in
      let w : Written = record { seq = seq; now = author.now; actor_id = some author.actor.id } in
      let books = with_entry row input.payers input.shares s in
      Returns-bind Moves bumped (write_rows row input.payers input.shares) _ (
        After-Returns (λ u. u ≡ with_entry row input.payers input.shares bumped) _ _
          (write_rows-wrote row input.payers input.shares bumped)
          λ u same_db. rw same_db (
            finish-Moves (read_entry s id) author seq w
              (with_entry row input.payers input.shares bumped)
              (λ t same_rows. write-TowardZero s m c left id input author seq t d allowed (record {
                members = same_rows.members;
                entries = same_rows.entries;
                payers = same_rows.payers;
                shares = same_rows.shares;
              }))))

  abbrev Allowed : Unit {0} → Db → Type 0
  Allowed u t =
      (t ≡ s) × (only_settles (position_of s) (moved (departed s) (read_entry s id) input) ≡ true)

  -- The check lets a write through only on the database that it looked at.
  checked : Returns Allowed (assert_departed_only_settle (read_entry s id) input s)
  unfolding assert_departed_only_settle gets ◌>>=◌
  checked = refuse_unless-Returns Allowed _ forbidden s (λ allowed. (refl, allowed))

  put_new_version-Moves :
      (author : WriteContext) → Returns Moves (put_new_version id (read_entry s id) input author s)
  unfolding put_new_version
  put_new_version-Moves author =
      Returns-guard Moves s (assert_edit (read_entry s id) input) _
        (Guards-assert_edit (read_entry s id) input)
        (Returns-guard Moves s (assert_settlement input) _ (Guards-assert_settlement input) (
          Returns-bind Moves s (assert_departed_only_settle (read_entry s id) input)
            (λ _. write_entry id (read_entry s id) input author)
            (Returns-weaken Allowed
              (λ _ t. Returns Moves (write_entry id (read_entry s id) input author t)) _ checked
              λ _ t k. rw (k.0) (write_entry-Moves author k.1))))

  stays_put : (e : Entry) → Moves e s
  stays_put e = unmoved refl

  put_or_found-Moves :
      (author : WriteContext) (found : Option Entry)
      → Returns Moves (case_of found (put_new_version id (read_entry s id) input author) pure s)
  unfolding pure
  put_or_found-Moves author none = put_new_version-Moves author
  put_or_found-Moves author (some e) = stays_put e

  put_entry-Moves : (author : WriteContext) → Returns Moves (put_entry id input author s)
  unfolding put_entry assert_balanced
  put_entry-Moves author = Returns-guard Moves s _ _ (Guards-refuse_if _ _) (
      Returns-bind Moves s (assert_members_exist input) _ (
        Returns-weaken (λ _ t. Known input s t) _ _ (assert_members_exist-Known input s)
          λ _ t k. rw k.same_db (
            Returns-read Moves s _ _
              (put_or_found-Moves author (unchanged (read_entry s id) input)))))

-- Somebody who has left cannot see the group, so no save of an expense that returns, whoever makes
-- it, does to what they hold in a currency anything but leave it or move it toward zero, on the side
-- it was. Where no two expenses have one id.
pub put_entry-TowardZero :
    (id : ℕ) (input : EntryInput) (author : WriteContext) (s t : Db) (e : Entry)
    (member currency : ℕ)
    → Distinct s.entries
    → has_departed (departed s) member ≡ true
    → put_entry id input author s ≡ done e t
    → TowardZero (position_of s member currency) (position_of t member currency)
put_entry-TowardZero id input author s t e member currency d left h =
    rw h at (put_entry-Moves s member currency left d id input author)
