-- ===== src/Tests/Delivery.antt =====
-- A group's outbox of three rows, sent to a directory that knows one account.
use opensplit.Prelude.{
  if◌then◌else◌, ℕ, ◌≡◌, ◌≢◌, ◌+◌, arith, refl, false, none, some, List, [], ◌∷◌, any_row, ◌==◌,
}
use opensplit.Group.Tables.{
  OutboxRow, OutboxPayload, membership, link_token, group_purged, LinkKind,
}
use opensplit.Directory.Tables.{Directory}
use opensplit.Directory.Apply.{apply_row}
use opensplit.Directory.Apply.View.{view}
use opensplit.Directory.Apply.Links.{index, step_index, TokensOnce, index-apply_row}
use opensplit.Directory.Apply.Delivery.{IsLog, send_rows, view-send_rows_any_order}
use opensplit.Flush.{World, taken, answer_lost, refused, exhausted, drain, settle}
use opensplit.Flush.Ends.{drain_ends}
use opensplit.Flush.Owed.{IsOwed, settle-IsOwed}
use opensplit.Tests.{quiet}

abbrev joined : OutboxPayload
joined = membership (record { group_id = 1; profile_id = 77; left_at = none; updated_at = 1000 })

abbrev left : OutboxPayload
left = membership (record { group_id = 1; profile_id = 77; left_at = some 1500; updated_at = 1500 })

abbrev invited : OutboxPayload
invited = link_token (record { group_id = 1; token = 500; token_kind = LinkKind.invite })

abbrev payload : ℕ → OutboxPayload
payload n =
    if n == 0
    then joined
    else if n == 1
    then invited
    else if n == 3
    then left
    else group_purged (record { group_id = 2 })

abbrev log : ℕ → OutboxRow
log n = record { id = n; payload = payload n; attempts = 0; created_at = 1000 + n }

log-IsLog : IsLog log
log-IsLog = record { ids = λ n. refl }

abbrev directory : Directory
directory = record {
  users = record { id = 77; email = []; created_at = 900; is_anonymous = false } ∷ [];
  sessions = [];
  profiles = [];
  counter = none;
  memberships = [];
  devices = [];
  link_tokens = [];
  purged = [];
}

-- A token leads to group 1 already when the row that puts it there arrives.
abbrev linked : Directory
linked = record directory {
  link_tokens = record { token = 500; group_id = 1; kind = LinkKind.invite; created_at = 900 } ∷ [];
}

index-apply_row_example :
    (index (apply_row (log 1) linked) ≡ step_index (log 1) (index linked))
    × TokensOnce (apply_row (log 1) linked).link_tokens
index-apply_row_example = index-apply_row (log 1) linked (refl, tt)

-- The membership of account 77 arrives late and twice.
abbrev late : List ℕ
late = 3 ∷ 0 ∷ 1 ∷ 0 ∷ []

abbrev in_order : List ℕ
in_order = 0 ∷ 1 ∷ 3 ∷ []

same_rows : (k : ℕ) → any_row (λ n. n == k) late ≡ any_row (λ n. n == k) in_order
same_rows k = ground arith

view-send_rows_any_order_example :
    view (send_rows log late directory) ≡ view (send_rows log in_order directory)
view-send_rows_any_order_example =
    view-send_rows_any_order log log-IsLog late in_order directory same_rows

-- D1 takes two rows, and the answer for the second is lost.
abbrev staged : World
staged = record {
  db = record quiet { outbox = log 0 ∷ log 1 ∷ log 3 ∷ []; last_outbox_id = 3 };
  d1 = directory;
  answers = taken ∷ answer_lost ∷ refused ∷ [];
  alarm = none;
}

drain_ends_example : (drain 5 2000 staged).0 ≢ exhausted
drain_ends_example = drain_ends 2000 staged

settle-IsOwed_example :
    ((settle false 2000 staged).alarm ≡ (settle false 2000 staged).db.schedule)
    × IsOwed 2000 (settle false 2000 staged).db
settle-IsOwed_example = settle-IsOwed false 2000 staged
