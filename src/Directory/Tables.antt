-- ===== src/Directory/Tables.antt =====
-- The tables of D1: server/src/db/d1/schema.ts, and of server/src/auth-schema.ts the columns that
-- the server's own statements read. Ids, tokens and groups are numbers, instants milliseconds.
use opensplit.Prelude.{ℕ, Bool, Option, List}
use opensplit.Prelude.Text.{Text}
use opensplit.Group.Schema.{AvatarKind}
use opensplit.Group.Tables.{LinkKind}

-- An account. Addresses are compared in lower case.
pub record UserRow : Type 0 where
  pub id : ℕ
  pub email : Text
  pub created_at : ℕ
  pub is_anonymous : Bool

pub record SessionRow : Type 0 where
  pub token : ℕ
  pub user_id : ℕ
  pub updated_at : ℕ

-- `avatarColumns`
pub record Avatar : Type 0 where
  pub avatar_kind : AvatarKind
  pub avatar_color : Option Text
  pub avatar_emoji : Option Text
  pub avatar_icon : Option Text
  pub avatar_photo : Option Text

-- A person as the app displays them, one for each account. The row stays when the account is
-- deleted, with `deleted_at` set.
pub record ProfileRow : Type 0 where
  pub id : ℕ
  pub display_name : Option Text
  pub upi_vpa : Option Text
  pub avatar : Avatar
  pub updated_at : ℕ
  pub deleted_at : Option ℕ
  pub version : ℕ

-- A place in a group: its key is the account and the group, its version the id of the outbox row.
pub record MembershipRow : Type 0 where
  pub profile_id : ℕ
  pub group_id : ℕ
  pub left_at : Option ℕ
  pub updated_at : ℕ
  pub version : ℕ

pub data Platform : Type 0 where
  android web : Platform

pub record DeviceRow : Type 0 where
  pub token : ℕ
  pub profile_id : ℕ
  pub platform : Platform
  pub updated_at : ℕ

pub record LinkTokenRow : Type 0 where
  pub token : ℕ
  pub group_id : ℕ
  pub kind : LinkKind
  pub created_at : ℕ

pub record PurgedGroupRow : Type 0 where
  pub group_id : ℕ
  pub purged_at : ℕ

-- `counter` is the value of the one named counter that the code takes numbers from.
pub record Directory : Type 0 where
  pub users : List UserRow
  pub sessions : List SessionRow
  pub profiles : List ProfileRow
  pub counter : Option ℕ
  pub memberships : List MembershipRow
  pub devices : List DeviceRow
  pub link_tokens : List LinkTokenRow
  pub purged : List PurgedGroupRow
