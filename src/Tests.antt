-- ===== src/Tests.antt =====
-- A small history of one group, run through the model.
pub mod Delivery
pub mod Accounts
pub mod Departed
pub mod Identity
use opensplit.Prelude.{
  ℕ, ◌≤◌, ◌⊎◌, ◌↔◌, All, arith, any_row, ◌/◌, ◌-◌, ◌+◌, ◌≡◌, refl, true, false, Option, none, some,
  List, [], ◌∷◌,
}
use opensplit.Group.Schema.{
  AvatarKind, CoverKind, Appearance, EntryKind, SplitKind, EntryInput, MemberInput, GroupInput,
  MemberRow, MetaRow, EntryRow, Entry, TombstoneRow,
}
use opensplit.Group.Tables.{Db, EventRow, EventBody}
use opensplit.Group.Action.{
  done, pure, gets, or_refuse, modify, refuse_if, check, run_if, ◌>>=◌, attempt, answered,
}
use opensplit.Group.Store.{
  distinct_ids, distinct_profiles, WriteContext, current_seq, next_seq, random_uuid, find_member,
}
use opensplit.Group.Events.{append, money_rows, snapshot_of, latest_snapshot, append_snapshot}
use opensplit.Group.Entries.{
  payers_of, shares_of, read_entries, read_entry, require_entry, sum_payers, sum_shares,
  assert_balanced, assert_settlement, repeats, all_known, assert_members_exist, comparable,
  comparable_input, comparable_entry,
}
use opensplit.Group.Departed.{
  departed, moved_by_payers, moved_by_shares, moved_by, moved, settles, only_settles,
  assert_departed_only_settle,
}
use opensplit.Group.Balances.{
  add_delta, group_deltas, deltas, outstanding, is_settled, is_group_settled, position_of,
}
use opensplit.Group.Ledger.{
  check_entry, upsert_entry, check_payers, replace_payers, replace_shares, fx_at_of, deleted_at_of,
  write_rows, new_row, write_entry, assert_edit, unchanged, put_new_version, put_entry,
}
use opensplit.Group.Ledger.Retry.{put_entry-retry}
use opensplit.Fx.Tables.{RateRow, FxDb, FxProvider, FxSnapshot, Reply}
use opensplit.Fx.Rates.{store, insert_rates, rate_rows, iso_day, history_days}
use opensplit.Fx.Runs.{FxCall, refreshes, backfills, fills_history, republishes, run_calls}
use opensplit.Fx.Gaps.{gaps}
use opensplit.Fx.Gaps.Covered.{spans, is_recent, gaps-cover}
use opensplit.Fx.Immutable.{rate_at, rate_never_changes}
use opensplit.Group.Changes.{GroupChanges}
use opensplit.Chunked.{chunked, insertable}
use opensplit.Chunked.Pieces.{flat, Fits, Binds, chunked-pieces, insertable-pieces}
use opensplit.Prelude.Int.{pos}
use opensplit.Group.Refusal.{not_member, ok, err}
use opensplit.Group.Balances.Sums.{total, balance}
use opensplit.Group.Balances.ByExpense.{net, is_settled-net, is_group_settled-net, position_of-net}
use opensplit.Group.Balances.Conservation.{total-outstanding}
use opensplit.Group.Books.{serve-IsBalanced}
use opensplit.Group.Books.Rows.{IsBalanced}
use opensplit.Group.Access.{repeats_leave, outsider_refused}
use opensplit.Group.History.{seq_never_decreases, tombstone_stays}
use opensplit.Group.Object.{Request, puts_group, puts_member, puts_entry, run_request, serve}

abbrev looks : Appearance
looks = record {
  avatar_kind = AvatarKind.initials;
  avatar_color = none;
  avatar_emoji = none;
  avatar_icon = none;
  avatar_photo = none;
  cover_kind = CoverKind.generated;
  cover_photo_key = none;
}

abbrev trip : GroupInput
trip = record {
  name = b'T' ∷ [];
  default_currency = 1;
  is_direct = false;
  simplify_debts = true;
  appearance = looks;
  creator_id = 10;
  creator_name = b'A' ∷ [];
  base_seq = none;
}

abbrev bob : MemberInput
bob = record { display_name = b'B' ∷ []; upi_vpa = none; left_at = none; base_seq = none }

abbrev pub dinner : EntryInput
dinner = record {
  columns = record {
    kind = EntryKind.expense;
    description = [];
    category_id = none;
    currency = 1;
    amount_minor = 100;
    entry_date = 5;
    occurred_at = none;
    time_zone = none;
    split_kind = SplitKind.equal;
    fx_rate = none;
    fx_source = none;
    notes = none;
  };
  deleted_at = none;
  payers = record { member_id = 10; amount_minor = 100 } ∷ [];
  shares =
      record { member_id = 11; amount_minor = 50; weight_micros = none }
      ∷ record { member_id = 10; amount_minor = 50; weight_micros = none }
      ∷ [];
  base_seq = none;
}

abbrev random : ℕ → ℕ
random n = n + 100000

abbrev pub member : ℕ → Option ℕ → Option ℕ → ℕ → MemberRow
member id profile left seq = record {
  id = id;
  profile_id = profile;
  display_name = b'A' ∷ [];
  upi_vpa = none;
  joined_at = 1000;
  left_at = left;
  updated_at = 1000;
  seq = seq;
}

abbrev about : MetaRow
about = record {
  id = 1;
  name = b'T' ∷ [];
  default_currency = 1;
  is_direct = false;
  simplify_debts = true;
  appearance = looks;
  created_by = 10;
  created_at = 1000;
  last_activity_at = 1000;
  updated_at = 1000;
  seq = 1;
}

-- A group of two, nothing spent yet: member 10 is account 77, member 11 is nobody's account.
abbrev pub quiet : Db
quiet = record {
  counter = some 2;
  members = member 10 (some 77) none 1 ∷ member 11 none none 2 ∷ [];
  meta = some about;
  tombstone = none;
  entries = [];
  entry_payers = [];
  entry_shares = [];
  events = [];
  invites = [];
  group_link = none;
  outbox = [];
  last_outbox_id = 0;
  schedule = none;
  random = random;
  drawn = 0;
}

abbrev pub author : WriteContext
author = record { now = 3000; actor = member 10 (some 77) none 1 }

abbrev pub dinner_row : EntryRow
dinner_row = record {
  id = 5;
  columns = dinner.columns;
  fx_at = none;
  created_by = 10;
  created_at = 3000;
  updated_at = 3000;
  deleted_at = none;
  seq = 3;
}

abbrev dinner_entry : Entry
dinner_entry = record { row = dinner_row; payers = dinner.payers; shares = dinner.shares }

abbrev pub dined_event : EventRow
dined_event = record {
  id = 100000;
  actor_id = some 10;
  created_at = 3000;
  body = EventBody.entry 5 (record {
    kind = EntryKind.expense;
    description = [];
    currency = 1;
    amount_minor = 100;
    entry_date = 5;
    split_kind = SplitKind.equal;
    category_id = none;
    notes = none;
    deleted_at = none;
    payers = dinner.payers;
    shares =
        record { member_id = 10; amount_minor = 50 }
        ∷ record { member_id = 11; amount_minor = 50 }
        ∷ [];
  });
  seq = 3;
  ordinal = 0;
}

-- The same group after the dinner.
abbrev pub dined : Db
dined = record quiet {
  counter = some 3;
  entries = dinner_row ∷ [];
  entry_payers =
      record { entry_id = 5; payer = record { member_id = 10; amount_minor = 100 } } ∷ [];
  entry_shares =
      record {
        entry_id = 5;
        share = record { member_id = 11; amount_minor = 50; weight_micros = none };
      }
      ∷ record {
        entry_id = 5;
        share = record { member_id = 10; amount_minor = 50; weight_micros = none };
      }
      ∷ [];
  events = dined_event ∷ [];
  drawn = 1;
}

abbrev opening : List (ℕ × Request)
opening =
    (1000, puts_group 1 trip 77)
    ∷ (2000, puts_member 11 bob 77)
    ∷ (3000, puts_entry 5 dinner 77)
    ∷ (4000, puts_entry 5 dinner 77)
    ∷ []

dinner_is_put : put_entry 5 dinner author quiet ≡ done dinner_entry dined
unfolding put_entry pure gets or_refuse modify refuse_if check run_if ◌>>=◌ current_seq next_seq
    random_uuid find_member append money_rows snapshot_of latest_snapshot append_snapshot payers_of
    shares_of read_entries read_entry require_entry sum_payers sum_shares assert_balanced
    assert_settlement repeats all_known assert_members_exist comparable comparable_input
    comparable_entry departed moved_by_payers moved_by_shares moved_by moved settles only_settles
    assert_departed_only_settle add_delta group_deltas check_entry upsert_entry check_payers
    replace_payers replace_shares fx_at_of deleted_at_of write_rows new_row write_entry assert_edit
    unchanged put_new_version
dinner_is_put = refl

put_entry-retry_example : put_entry 5 dinner author dined ≡ done dinner_entry dined
put_entry-retry_example =
    put_entry-retry 5 dinner author author quiet dined dinner_entry dinner_is_put

dined-IsBalanced : IsBalanced dined
unfolding payers_of shares_of sum_payers sum_shares
dined-IsBalanced = record { distinct = (refl, tt); sums = ((refl, refl), tt) }

serve-IsBalanced_example : IsBalanced (serve dined opening)
serve-IsBalanced_example = serve-IsBalanced dined opening dined-IsBalanced

outsider_refused_example :
    (attempt (run_request (puts_entry 5 dinner 99) 9000) dined ≡ (answered (err not_member), dined))
    ⊎ ((repeats_leave (puts_entry 5 dinner 99) dined ≡ true)
        × (attempt (run_request (puts_entry 5 dinner 99) 9000) dined ≡ (answered (ok tt), dined)))
outsider_refused_example =
    outsider_refused (puts_entry 5 dinner 99) 99 9000 dined about refl refl refl

total-outstanding_example : total 1 (outstanding dined) ≡ pos 0
total-outstanding_example = total-outstanding 1 dined dined-IsBalanced

is_settled-net_example :
    (is_settled dined 11 ≡ true) ↔ ((c : ℕ) → net dined 11 c dined.entries ≡ pos 0)
is_settled-net_example = is_settled-net dined 11 (refl, tt)

is_group_settled-net_example :
    (is_group_settled dined ≡ true) ↔ ((m c : ℕ) → net dined m c dined.entries ≡ pos 0)
is_group_settled-net_example = is_group_settled-net dined (refl, tt)

position_of-net_example : position_of dined 11 1 ≡ net dined 11 1 dined.entries
position_of-net_example = position_of-net dined 11 1 (refl, tt)

seq_never_decreases_example : current_seq dined ≤ current_seq (serve dined opening)
seq_never_decreases_example = seq_never_decreases dined opening

abbrev grave : TombstoneRow
grave = record { group_id = 1; purged_at = 5000; seq = 4 }

abbrev buried : Db
buried = record quiet { members = []; meta = none; tombstone = some grave }

tombstone_stays_example : (serve buried opening).tombstone ≡ some grave
tombstone_stays_example = tombstone_stays buried opening grave refl

abbrev three : List ℕ
three = 1 ∷ 2 ∷ 3 ∷ []

insertable-pieces_example : (flat (insertable 5 three) ≡ three) × All (Binds 5) (insertable 5 three)
insertable-pieces_example = insertable-pieces 5 three (omega arith)

chunked-pieces_example : (flat (chunked three 2) ≡ three) × All (Fits 2) (chunked three 2)
chunked-pieces_example = chunked-pieces three 2 (omega arith)

-- A provider that answers each request with one rate of currency 8 for day 20000.
abbrev provider : FxProvider
provider = record {
  name = 1;
  supports_history = true;
  fetch = λ as_of currencies. Reply.usable (record { as_of = 20000; rates = (8, 90) ∷ [] });
  fetch_range = none;
}

abbrev rate_row : RateRow
rate_row = record { as_of = 20000; currency = 8; rate = 92; source = 2; created_at = 5 }

abbrev exchange : FxDb
exchange = record { rates = rate_row ∷ []; health = []; requests = []; cache = [] }

abbrev month_number : ℕ → ℕ
month_number day = day / 30

abbrev calls : List FxCall
calls =
    refreshes (provider ∷ []) none 1728000000000
    ∷ backfills (provider ∷ []) 19990 8 1728000000000
    ∷ fills_history (provider ∷ []) 1728000000000
    ∷ republishes
    ∷ []

abbrev currencies : List ℕ
currencies = 7 ∷ 8 ∷ []

rate_never_changes_example :
    rate_at 20000 8 (run_calls month_number currencies calls exchange).rates ≡ some rate_row
rate_never_changes_example =
    rate_never_changes month_number currencies calls exchange 20000 8 rate_row refl

gaps-cover_example :
    (any_row (spans 19995) (gaps 1728000000000 exchange) ≡ true)
    ⊎ ((any_row (λ r. is_recent 19995 r.as_of) exchange.rates ≡ true)
        ⊎ (is_recent 19995 (iso_day 1728000000000 - history_days - 1) ≡ true))
gaps-cover_example = gaps-cover 1728000000000 19995 exchange (omega arith) (omega arith)

-- The first page for account 77, of one change at most.
abbrev first_page : GroupChanges
first_page = record {
  group_id = 1;
  seq = 1;
  has_more = true;
  group = some about;
  members = member 10 (some 77) none 1 ∷ member 11 none none 2 ∷ [];
  entries = [];
  events = [];
  purged_at = none;
}
