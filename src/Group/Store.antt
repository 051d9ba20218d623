-- ===== src/Group/Store.antt =====
-- server/src/do/group/store.ts: the sequence counter, the rows that every operation looks up, and
-- the end of a group.
use opensplit.Prelude.{
  ℕ, ◌+◌, Bool, true, false, ◌&&◌, not, Option, none, some, List, [], ◌∷◌, ◌++◌, find_row, any_row,
  update_where, is_some, is_none, or_else, ◌==◌,
}
use opensplit.Prelude.Text.{is_blank}
use opensplit.Group.Schema.{MemberRow, MetaRow, TombstoneRow}
use opensplit.Group.Refusal.{RefusalCode, not_member, no_group, group_purged, no_such_member}
use opensplit.Group.Tables.{Db}
use opensplit.Group.Action.{
  Action, pure, gets, or_refuse, modify, check, primary_key, members_profile, name_not_blank, ◌>>=◌,
  ◌>>◌,
}

-- A write's clock and its author, who is always the caller's own member row.
pub record WriteContext : Type 0 where
  pub now : ℕ
  pub actor : MemberRow

unfoldable pub current_seq : Db → ℕ
current_seq s = or_else s.counter 0

-- The next sequence number, taken in the transaction of the rows that it stamps.
unfoldable pub next_seq : Action ℕ
unfolding current_seq
next_seq = do
  value ← gets (λ s. current_seq s + 1)
  modify (λ s. record s { counter = some value })
  pure value

-- What `crypto.randomUUID()` answers.
unfoldable pub random_uuid : Action ℕ
random_uuid = do
  token ← gets (λ s. s.random s.drawn)
  modify (λ s. record s { drawn = s.drawn + 1 })
  pure token

abbrev missing_group : Option TombstoneRow → RefusalCode
missing_group (some grave) = group_purged
missing_group none = no_group

-- The group, or a refusal that says which kind of nothing is here.
unfoldable pub require_meta : Action MetaRow
require_meta s = or_refuse s.meta (missing_group s.tombstone) s

-- SQL's `column = value`, which a null column does not satisfy.
abbrev pub holds : Option ℕ → ℕ → Bool
holds none v = false
holds (some w) v = w == v

-- A member row that an account holds and has not left.
abbrev pub is_active_account : MemberRow → Bool
is_active_account m = is_some m.profile_id && is_none m.left_at

unfoldable pub find_member_by_profile : Db → ℕ → Option MemberRow
find_member_by_profile s profile = find_row (λ m. holds m.profile_id profile) s.members

-- The caller's own current member row: the whole of authorization here.
unfoldable pub require_active_member : ℕ → Action MemberRow
require_active_member profile s =
    or_refuse (find_row (λ m. holds m.profile_id profile && is_none m.left_at) s.members) not_member
      s

unfoldable pub find_member : Db → ℕ → Option MemberRow
find_member s id = find_row (λ m. m.id == id) s.members

unfoldable pub require_member : ℕ → Action MemberRow
unfolding find_member
require_member id s = or_refuse (find_member s id) no_such_member s

unfoldable pub has_active_accounts : Db → Bool
has_active_accounts s = any_row is_active_account s.members

-- The constraints of the members table, on the rows that a statement would leave.
unfoldable pub distinct_ids : List MemberRow → Bool
distinct_ids [] = true
distinct_ids (m ∷ ms) = not (any_row (λ n. n.id == m.id) ms) && distinct_ids ms

unfoldable pub distinct_profiles : List MemberRow → Bool
distinct_profiles [] = true
distinct_profiles (m ∷ ms) =
    (elim m.profile_id [ none ↦ true | some p ↦ not (any_row (λ n. holds n.profile_id p) ms) ])
    && distinct_profiles ms

unfoldable pub set_members : List MemberRow → Action (Unit {0})
set_members rows = do
  check (distinct_ids rows) primary_key
  check (distinct_profiles rows) members_profile
  check (not (any_row (λ m. is_blank m.display_name) rows)) name_not_blank
  modify (λ s. record s { members = rows })

unfoldable pub insert_member : MemberRow → Action (Unit {0})
insert_member row = do rows ← gets (λ s. s.members); set_members (rows ++ row ∷ [])

unfoldable pub update_member_row : ℕ → (MemberRow → MemberRow) → Action (Unit {0})
update_member_row id change = do
  rows ← gets (λ s. s.members)
  set_members (update_where (λ m. m.id == id) change rows)

abbrev bury : TombstoneRow → Option TombstoneRow → Option TombstoneRow
bury grave none = some grave
bury grave (some old) = some old

unfoldable pub empty_tables : TombstoneRow → Db → Db
empty_tables grave s = record s {
  entry_payers = [];
  entry_shares = [];
  entries = [];
  events = [];
  invites = [];
  group_link = none;
  meta = none;
  members = [];
  tombstone = bury grave s.tombstone;
}

-- Deletes the whole group and leaves a tombstone for the feed.
unfoldable pub purge : ℕ → Action (Unit {0})
purge now = do
  seq ← next_seq
  meta ← require_meta
  modify (empty_tables (record { group_id = meta.id; purged_at = now; seq = seq }))

-- The caller as a member of an existing group. The group is checked first, so a collected one says
-- so. (`as` in index.ts.)
unfoldable pub act_as : ℕ → ℕ → Action WriteContext
act_as profile now = do
  require_meta
  actor ← require_active_member profile
  pure (record { now = now; actor = actor })
