-- ===== src/Group/Schema.antt =====
-- The tables of a group's object (server/src/db/group/schema.ts), the bodies that the routes hand
-- to it and the answers that it gives (server/src/schemas/ledger.ts).
--
-- Ids, tokens, currency codes, calendar dates and rates are compared and ordered and never taken
-- apart: a natural number stands for each. An instant is its epoch milliseconds, of which the
-- ISO-8601 text that the code stores is an order-preserving copy. Names and notes are texts.
use opensplit.Prelude.{ℕ, Bool, Option, List, ℕ_discrete}
use opensplit.Prelude.Int.{ℤ, ℤ_discrete}
use opensplit.Prelude.Text.{Text}

-- A member. No `profile_id` is a placeholder: a person with no account yet.
pub record MemberRow : Type 0 where
  pub id : ℕ
  pub profile_id : Option ℕ
  pub display_name : Text
  pub upi_vpa : Option Text
  pub joined_at : ℕ
  pub left_at : Option ℕ
  pub updated_at : ℕ
  pub seq : ℕ

pub data AvatarKind : Type 0 where
  initials emoji icon photo : AvatarKind

pub data CoverKind : Type 0 where
  generated cover_photo : CoverKind

-- The columns that only decide how a group looks.
pub record Appearance : Type 0 where
  pub avatar_kind : AvatarKind
  pub avatar_color : Option Text
  pub avatar_emoji : Option Text
  pub avatar_icon : Option Text
  pub avatar_photo : Option Text
  pub cover_kind : CoverKind
  pub cover_photo_key : Option Text

pub Appearance-discrete : Discrete Appearance
Appearance-discrete = hlevel ℕ_discrete

pub record MetaRow : Type 0 where
  pub id : ℕ
  pub name : Text
  pub default_currency : ℕ
  pub is_direct : Bool
  pub simplify_debts : Bool
  pub appearance : Appearance
  pub created_by : ℕ
  pub created_at : ℕ
  pub last_activity_at : ℕ
  pub updated_at : ℕ
  pub seq : ℕ

pub record TombstoneRow : Type 0 where
  pub group_id : ℕ
  pub purged_at : ℕ
  pub seq : ℕ

pub data EntryKind : Type 0 where
  expense settlement : EntryKind

pub EntryKind-discrete : Discrete EntryKind
EntryKind-discrete = hlevel

pub data SplitKind : Type 0 where
  equal exact shares percent : SplitKind

-- The entry columns that a device writes, `editableEntryColumns`.
pub record EditableColumns : Type 0 where
  pub kind : EntryKind
  pub description : Text
  pub category_id : Option ℕ
  pub currency : ℕ
  pub amount_minor : ℕ
  pub entry_date : ℕ
  pub occurred_at : Option ℕ
  pub time_zone : Option Text
  pub split_kind : SplitKind
  pub fx_rate : Option ℕ
  pub fx_source : Option Text
  pub notes : Option Text

pub EditableColumns-discrete : Discrete EditableColumns
EditableColumns-discrete = hlevel ℕ_discrete

pub record EntryRow : Type 0 where
  pub id : ℕ
  pub columns : EditableColumns
  pub open columns use *
  pub fx_at : Option ℕ
  pub created_by : ℕ
  pub created_at : ℕ
  pub updated_at : ℕ
  pub deleted_at : Option ℕ
  pub seq : ℕ

-- A member and an amount; a payer of an entry is one.
pub record MoneyRow : Type 0 where
  pub member_id : ℕ
  pub amount_minor : ℕ

pub record Share : Type 0 where
  pub member_id : ℕ
  pub amount_minor : ℕ
  pub weight_micros : Option ℤ

pub record EntryPayerRow : Type 0 where
  pub entry_id : ℕ
  pub payer : MoneyRow
  pub open payer use *

pub record EntryShareRow : Type 0 where
  pub entry_id : ℕ
  pub share : Share
  pub open share use *

-- An entry with its payers and shares.
pub record Entry : Type 0 where
  pub row : EntryRow
  pub open row use *
  pub payers : List MoneyRow
  pub shares : List Share

pub record EntryInput : Type 0 where
  pub columns : EditableColumns
  pub open columns use *
  pub deleted_at : Option ℕ
  pub payers : List MoneyRow
  pub shares : List Share
  pub base_seq : Option ℕ

-- An expense after a change, as the activity feed keeps it.
pub record EntrySnapshot : Type 0 where
  pub kind : EntryKind
  pub description : Text
  pub currency : ℕ
  pub amount_minor : ℕ
  pub entry_date : ℕ
  pub split_kind : SplitKind
  pub category_id : Option ℕ
  pub notes : Option Text
  pub deleted_at : Option ℕ
  pub payers : List MoneyRow
  pub shares : List MoneyRow

pub EntrySnapshot-discrete : Discrete EntrySnapshot
EntrySnapshot-discrete = hlevel ℕ_discrete

-- What a save of an entry can change.
pub record Comparable : Type 0 where
  pub columns : EditableColumns
  pub counts : Bool
  pub amount_minor : ℕ
  pub payers : List MoneyRow
  pub shares : List MoneyRow
  pub weights : List (Option ℤ)

pub Comparable-discrete : Discrete Comparable
Comparable-discrete = hlevel (ℕ_discrete, ℤ_discrete)

pub record MemberInput : Type 0 where
  pub display_name : Text
  pub upi_vpa : Option Text
  pub left_at : Option ℕ
  pub base_seq : Option ℕ

pub record GroupInput : Type 0 where
  pub name : Text
  pub default_currency : ℕ
  pub is_direct : Bool
  pub simplify_debts : Bool
  pub appearance : Appearance
  pub creator_id : ℕ
  pub creator_name : Text
  pub base_seq : Option ℕ

pub record JoinRequest : Type 0 where
  pub member_id : Option ℕ
  pub display_name : Option Text
