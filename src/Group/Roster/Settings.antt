-- ===== src/Group/Roster/Settings.antt =====
-- server/src/do/group/roster.ts, the group itself: its row, made and edited.
use opensplit.Prelude.{
  ℕ, Bool, true, false, ◌&&◌, not, none, some, is_some, is_none, same, if◌then◌else◌,
}
use opensplit.Prelude.Text.{Text-discrete, is_blank}
use opensplit.Group.Schema.{
  AvatarKind, emoji, icon, photo, CoverKind, cover_photo, Appearance, Appearance-discrete, MetaRow,
  GroupInput,
}
use opensplit.Group.Refusal.{stale_base}
use opensplit.Group.Tables.{group, group_renamed}
use opensplit.Group.Action.{
  Action, pure, gets, modify, refuse_if, check, run_if, primary_key, name_not_blank,
  appearance_checks, ◌>>=◌, ◌>>◌,
}
use opensplit.Group.Store.{WriteContext, next_seq, require_meta, holds, insert_member}
use opensplit.Group.Upkeep.{stage_membership}
use opensplit.Group.Events.{append}

abbrev pub same_bool : Bool → Bool → Bool
same_bool true b = b
same_bool false b = not b

abbrev is_emoji : AvatarKind → Bool
is_emoji emoji = true
is_emoji _ = false

abbrev is_icon : AvatarKind → Bool
is_icon icon = true
is_icon _ = false

abbrev is_photo : AvatarKind → Bool
is_photo photo = true
is_photo _ = false

abbrev is_cover_photo : CoverKind → Bool
is_cover_photo cover_photo = true
is_cover_photo _ = false

-- `avatarChecks` and `coverChecks`: the field that a kind reads is set exactly when it is chosen.
unfoldable pub appearance_holds : Appearance → Bool
appearance_holds a =
    same_bool (is_emoji a.avatar_kind) (is_some a.avatar_emoji)
    && same_bool (is_icon a.avatar_kind) (is_some a.avatar_icon)
    && same_bool (is_photo a.avatar_kind) (is_some a.avatar_photo)
    && same_bool (is_cover_photo a.cover_kind) (is_some a.cover_photo_key)

-- A statement that leaves this row in the meta table.
unfoldable pub set_meta : MetaRow → Action (Unit {0})
unfolding appearance_holds
set_meta row = do
  check (not (is_blank row.name)) name_not_blank
  check (appearance_holds row.appearance) appearance_checks
  modify (λ s. record s { meta = some row })

-- The group and its creator's member row in one change.
unfoldable pub create_group : ℕ → GroupInput → ℕ → ℕ → Action MetaRow
unfolding set_meta
create_group group_id input profile now = do
  seq ← next_seq
  insert_member (record {
    id = input.creator_id;
    profile_id = some profile;
    display_name = input.creator_name;
    upi_vpa = none;
    joined_at = now;
    left_at = none;
    updated_at = now;
    seq = seq;
  })
  fresh ← gets (λ s. is_none s.meta)
  check fresh primary_key
  set_meta (record {
    id = group_id;
    name = input.name;
    default_currency = input.default_currency;
    is_direct = input.is_direct;
    simplify_debts = input.simplify_debts;
    appearance = input.appearance;
    created_by = input.creator_id;
    created_at = now;
    last_activity_at = now;
    updated_at = now;
    seq = seq;
  })
  stage_membership profile none now
  require_meta

abbrev same_settings : GroupInput → MetaRow → Bool
same_settings input meta =
    same Text-discrete input.name meta.name
    && same_bool input.simplify_debts meta.simplify_debts
    && same Appearance-discrete input.appearance meta.appearance

-- Shared settings and appearance, by any active member.
unfoldable pub update_group : GroupInput → WriteContext → Action MetaRow
unfolding set_meta
update_group input c = do
  meta ← require_meta
  let apply : Action MetaRow = do
    refuse_if (not (holds input.base_seq meta.seq)) stale_base
    seq ← next_seq
    set_meta (record meta {
      name = input.name;
      simplify_debts = input.simplify_debts;
      appearance = input.appearance;
      updated_at = c.now;
      seq = seq;
    })
    run_if (not (same Text-discrete input.name meta.name)) (
        append (record { seq = seq; now = c.now; actor_id = some c.actor.id })
          (group group_renamed (record { name = input.name; previous_name = some meta.name })))
    require_meta
  if same_settings input meta then pure meta else apply
