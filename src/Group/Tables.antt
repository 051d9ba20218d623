-- ===== src/Group/Tables.antt =====
-- The rest of a group's tables (server/src/db/group/schema.ts): the activity record, the links, the
-- outbox and the schedule, and the whole database of one object.
use opensplit.Prelude.{ℕ, Option, none, some, List}
use opensplit.Prelude.Text.{Text}
use opensplit.Group.Schema.{
  MemberRow, MetaRow, TombstoneRow, EntryRow, EntryPayerRow, EntryShareRow, EntrySnapshot,
}

pub data MemberEventKind : Type 0 where
  member_added member_joined member_left member_renamed : MemberEventKind

pub data GroupEventKind : Type 0 where
  group_renamed : GroupEventKind

pub data LinkEventKind : Type 0 where
  link_created link_revoked : LinkEventKind

pub record MemberEventPayload : Type 0 where
  pub display_name : Text
  pub previous_name : Option Text

pub record GroupEventPayload : Type 0 where
  pub name : Text
  pub previous_name : Option Text

pub record LinkEventPayload : Type 0 where
  pub expires_at : ℕ

-- A kind with its subject and its payload: the columns `kind`, `subject_id` and the one payload
-- column that the kind chooses.
pub data EventBody : Type 0 where
  entry : ℕ → EntrySnapshot → EventBody
  member : MemberEventKind → ℕ → MemberEventPayload → EventBody
  group : GroupEventKind → GroupEventPayload → EventBody
  link : LinkEventKind → ℕ → LinkEventPayload → EventBody

abbrev pub subject_id : EventBody → Option ℕ
subject_id (entry id _) = some id
subject_id (member _ id _) = some id
subject_id (group _ _) = none
subject_id (link _ id _) = some id

pub record EventRow : Type 0 where
  pub id : ℕ
  pub actor_id : Option ℕ
  pub created_at : ℕ
  pub body : EventBody
  pub seq : ℕ
  pub ordinal : ℕ

-- An invite: one placeholder, handed to whoever holds the token.
pub record InviteRow : Type 0 where
  pub token : ℕ
  pub member_id : ℕ
  pub created_by : ℕ
  pub created_at : ℕ
  pub expires_at : ℕ
  pub redeemed_at : Option ℕ
  pub redeemed_by : Option ℕ

-- The group's one open link: the row keyed `live`.
pub record GroupLinkRow : Type 0 where
  pub token : ℕ
  pub created_by : ℕ
  pub created_at : ℕ
  pub expires_at : ℕ
  pub revoked_at : Option ℕ

pub data LinkKind : Type 0 where
  invite group_link : LinkKind

pub record MembershipWrite : Type 0 where
  pub group_id : ℕ
  pub profile_id : ℕ
  pub left_at : Option ℕ
  pub updated_at : ℕ

pub record LinkTokenWrite : Type 0 where
  pub group_id : ℕ
  pub token : ℕ
  pub token_kind : LinkKind

pub record PurgeWrite : Type 0 where
  pub group_id : ℕ

-- A staged write to D1, its payload chosen by its kind.
pub data OutboxPayload : Type 0 where
  membership : MembershipWrite → OutboxPayload
  link_token : LinkTokenWrite → OutboxPayload
  group_purged : PurgeWrite → OutboxPayload

pub record OutboxRow : Type 0 where
  pub id : ℕ
  pub payload : OutboxPayload
  pub attempts : ℕ
  pub created_at : ℕ

-- The database of one object. `counter` is the value of the one row that the counter table can
-- hold, `schedule` the due time of the one chore there is. The meta table holds one row at most,
-- since the object is one group. `last_outbox_id` is what `autoIncrement` counts from. `random`
-- stands for what the runtime's `crypto.randomUUID()` will answer, of which `drawn` are spent.
pub record Db : Type 0 where
  pub counter : Option ℕ
  pub members : List MemberRow
  pub meta : Option MetaRow
  pub tombstone : Option TombstoneRow
  pub entries : List EntryRow
  pub entry_payers : List EntryPayerRow
  pub entry_shares : List EntryShareRow
  pub events : List EventRow
  pub invites : List InviteRow
  pub group_link : Option GroupLinkRow
  pub outbox : List OutboxRow
  pub last_outbox_id : ℕ
  pub schedule : Option ℕ
  pub random : ℕ → ℕ
  pub drawn : ℕ
