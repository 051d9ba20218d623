-- ===== src/Tests/Departed.antt =====
-- The group of two after the dinner, which member 11 has left owing 50, and a payment of 20 by them.
use opensplit.Prelude.{◌≡◌, refl, none, some, [], ◌∷◌}
use opensplit.Prelude.Int.{◌+ℤ◌, neg}
use opensplit.Group.Schema.{EntryKind, EntryInput, EntryRow, Entry}
use opensplit.Group.Tables.{Db, EventBody}
use opensplit.Group.Action.{done, pure, gets, or_refuse, modify, refuse_if, check, run_if, ◌>>=◌}
use opensplit.Group.Store.{current_seq, next_seq, random_uuid, find_member}
use opensplit.Group.Events.{append, money_rows, snapshot_of, latest_snapshot, append_snapshot}
use opensplit.Group.Entries.{
  payers_of, shares_of, read_entries, read_entry, require_entry, sum_payers, sum_shares,
  assert_balanced, assert_settlement, repeats, all_known, assert_members_exist, comparable,
  comparable_input, comparable_entry,
}
use opensplit.Group.Departed.{
  departed, moved_by_payers, moved_by_shares, moved_by, moved, settles, only_settles,
  assert_departed_only_settle,
}
use opensplit.Group.Balances.{
  add_delta, group_deltas, deltas, outstanding, position_of, live_entry, payer_deltas, share_deltas,
}
use opensplit.Group.Ledger.{
  check_entry, upsert_entry, check_payers, replace_payers, replace_shares, fx_at_of, deleted_at_of,
  write_rows, new_row, write_entry, assert_edit, unchanged, put_new_version, put_entry,
}
use opensplit.Group.Departed.Moved.{TowardZero}
use opensplit.Group.Departed.TowardZero.{put_entry-TowardZero}
use opensplit.Tests.{dined, dined_event, dinner, dinner_row, author, member}

abbrev parted : Db
parted = record dined { members = member 10 (some 77) none 1 ∷ member 11 none (some 2500) 2 ∷ [] }

abbrev repay : EntryInput
repay = record dinner {
  columns = record dinner.columns { amount_minor = 20 };
  payers = record { member_id = 11; amount_minor = 20 } ∷ [];
  shares = record { member_id = 10; amount_minor = 20; weight_micros = none } ∷ [];
}

abbrev repay_row : EntryRow
repay_row = record dinner_row { id = 6; columns = repay.columns; seq = 4 }

abbrev repay_entry : Entry
repay_entry = record { row = repay_row; payers = repay.payers; shares = repay.shares }

abbrev repaid : Db
repaid = record parted {
  counter = some 4;
  entries = dinner_row ∷ repay_row ∷ [];
  entry_payers =
      record { entry_id = 5; payer = record { member_id = 10; amount_minor = 100 } }
      ∷ record { entry_id = 6; payer = record { member_id = 11; amount_minor = 20 } }
      ∷ [];
  entry_shares =
      record {
        entry_id = 5;
        share = record { member_id = 11; amount_minor = 50; weight_micros = none };
      }
      ∷ record {
        entry_id = 5;
        share = record { member_id = 10; amount_minor = 50; weight_micros = none };
      }
      ∷ record {
        entry_id = 6;
        share = record { member_id = 10; amount_minor = 20; weight_micros = none };
      }
      ∷ [];
  events =
      dined_event
      ∷ record {
        id = 100001;
        actor_id = some 10;
        created_at = 3000;
        body = EventBody.entry 6 (record {
          kind = EntryKind.expense;
          description = [];
          currency = 1;
          amount_minor = 20;
          entry_date = 5;
          split_kind = dinner.split_kind;
          category_id = none;
          notes = none;
          deleted_at = none;
          payers = repay.payers;
          shares = record { member_id = 10; amount_minor = 20 } ∷ [];
        });
        seq = 4;
        ordinal = 0;
      }
      ∷ [];
  drawn = 2;
}

repay_is_put : put_entry 6 repay author parted ≡ done repay_entry repaid
unfolding put_entry pure gets or_refuse modify refuse_if check run_if ◌>>=◌ current_seq next_seq
    random_uuid find_member append money_rows snapshot_of latest_snapshot append_snapshot payers_of
    shares_of read_entries read_entry require_entry sum_payers sum_shares assert_balanced
    assert_settlement repeats all_known assert_members_exist comparable comparable_input
    comparable_entry departed moved_by_payers moved_by_shares moved_by moved settles only_settles
    assert_departed_only_settle add_delta group_deltas deltas outstanding position_of live_entry
    payer_deltas share_deltas ◌+ℤ◌ neg check_entry upsert_entry check_payers replace_payers
    replace_shares fx_at_of deleted_at_of write_rows new_row write_entry assert_edit unchanged
    put_new_version
repay_is_put = refl

put_entry-TowardZero_example : TowardZero (position_of parted 11 1) (position_of repaid 11 1)
unfolding departed
put_entry-TowardZero_example =
    put_entry-TowardZero 6 repay author parted repaid repay_entry 11 1 (refl, tt) refl repay_is_put
