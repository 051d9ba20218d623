-- ===== src/Group/Frame/Ledger.antt =====
-- `putEntry` of server/src/do/group/ledger.ts is composed of the changes of a frame, its three
-- tables as one change that adds up.
use opensplit.Prelude.{ℕ, ◌≡◌, false, not, ◌||◌, Option, none, some, List, ◌==◌, arith}
use opensplit.Group.Schema.{EntryRow, MoneyRow, Share, Entry, EntryInput}
use opensplit.Group.Action.Keeps.{
  Order, Keeps, Keeps-pure, Keeps-bind, Keeps-gets, Keeps-lookup, Keeps-option, Keeps-passed,
  Guards, Guards-check, Guards-bind, After-guard, After-modify, keeps_rules,
}
use opensplit.Group.Action.{modify}
use opensplit.Group.Store.{WriteContext}
use opensplit.Group.Events.{Written, append_snapshot}
use opensplit.Group.Entries.{
  require_entry, sum_payers, sum_shares, assert_balanced, assert_settlement, assert_members_exist,
}
use opensplit.Group.Departed.{assert_departed_only_settle}
use opensplit.Group.Ledger.{
  assert_base_is_current, check_entry, check_payers, write_rows, write_entry, assert_edit,
  put_new_version, put_entry,
}
use opensplit.Group.Frame.{Frame, next_seq-Keeps, append-Keeps}

pub Guards-check_entry : (row : EntryRow) → Guards (check_entry row)
unfolding check_entry
Guards-check_entry row = search (Guards-bind, Guards-check) depth 20

pub Guards-check_payers : (payers : List MoneyRow) → Guards (check_payers payers)
unfolding check_payers
Guards-check_payers payers = search (Guards-bind, Guards-check) depth 20

-- The test of `assertBalanced`.
adds_up : (a b n : ℕ) → (not (a == n) || not (b == n)) ≡ false → (a ≡ n) × (b ≡ n)
adds_up a b n h = ground arith

module _ {O : Order} where
  write_rows-Keeps :
      Frame O
      → (row : EntryRow) (payers : List MoneyRow) (shares : List Share)
      → sum_payers payers ≡ row.amount_minor
      → sum_shares shares ≡ row.amount_minor
      → Keeps O (write_rows row payers shares)
  unfolding write_rows modify
  write_rows-Keeps f row payers shares p q = record {
    at = λ s. After-guard (O.rel s) _ _ s (Guards-check_entry row) (
        After-modify (O.rel s) _ _ s (
          After-guard (O.rel s) _ _ _ (Guards-check_payers payers) (
            After-modify (O.rel s) _ _ _ (
              After-guard (O.rel s) _ _ _ (Guards-check _ _)
                (f.written s row payers shares p q)))));
  }

  require_entry-Keeps : (id : ℕ) → Keeps O (require_entry id)
  unfolding require_entry
  require_entry-Keeps id = Keeps-lookup _ _

  append_snapshot-Keeps :
      Frame O
      → (e : EntryRow) (payers : List MoneyRow) (shares : List Share) (w : Written)
      → Keeps O (append_snapshot e payers shares w)
  unfolding append_snapshot
  append_snapshot-Keeps f e payers shares w = search (keeps_rules, append-Keeps) depth 20

  write_entry-Keeps :
      Frame O
      → (id : ℕ) (stored : Option Entry) (input : EntryInput) (c : WriteContext)
      → sum_payers input.payers ≡ input.amount_minor
      → sum_shares input.shares ≡ input.amount_minor
      → Keeps O (write_entry id stored input c)
  unfolding write_entry
  write_entry-Keeps f id stored input c p q = Keeps-bind _ _ (next_seq-Keeps f) λ seq.
      Keeps-bind _ _ (write_rows-Keeps f _ _ _ p q)
        λ _. search (keeps_rules, require_entry-Keeps, append_snapshot-Keeps) depth 20

  assert_edit-Keeps :
      (stored : Option Entry) (input : EntryInput) → Keeps O (assert_edit stored input)
  unfolding assert_edit assert_base_is_current
  assert_edit-Keeps none input = Keeps-pure tt
  assert_edit-Keeps (some e) input = search keeps_rules depth 20

  assert_members_exist-Keeps : (input : EntryInput) → Keeps O (assert_members_exist input)
  unfolding assert_members_exist
  assert_members_exist-Keeps input = search keeps_rules depth 20

  assert_departed_only_settle-Keeps :
      (stored : Option Entry) (input : EntryInput)
      → Keeps O (assert_departed_only_settle stored input)
  unfolding assert_departed_only_settle
  assert_departed_only_settle-Keeps stored input = search keeps_rules depth 20

  put_new_version-Keeps :
      Frame O
      → (id : ℕ) (stored : Option Entry) (input : EntryInput) (c : WriteContext)
      → sum_payers input.payers ≡ input.amount_minor
      → sum_shares input.shares ≡ input.amount_minor
      → Keeps O (put_new_version id stored input c)
  unfolding put_new_version assert_settlement
  put_new_version-Keeps f id stored input c p q =
      search (keeps_rules, assert_edit-Keeps, assert_departed_only_settle-Keeps, write_entry-Keeps)
        depth 20

  pub put_entry-Keeps :
      Frame O → (id : ℕ) (input : EntryInput) (c : WriteContext) → Keeps O (put_entry id input c)
  unfolding put_entry assert_balanced
  put_entry-Keeps f id input c = Keeps-passed _ _ _ λ balanced.
      let sums =
        adds_up (sum_payers input.payers) (sum_shares input.shares) input.amount_minor balanced in
      Keeps-bind _ _ (assert_members_exist-Keeps input) λ _. Keeps-bind _ _ (Keeps-gets _) λ stored.
        Keeps-option _ _ _ (put_new_version-Keeps f id stored input c sums.0 sums.1)
          (λ e. Keeps-pure e)
