-- ===== src/Group/Roster/Accounts.antt =====
-- server/src/do/group/roster.ts, accounts that are deleted and guests that become accounts.
use opensplit.Prelude.{
  ℕ, Bool, true, false, ◌&&◌, not, Option, none, some, any_row, is_some, is_none, or_else, case_of,
  if◌then◌else◌,
}
use opensplit.Prelude.Text.{Text}
use opensplit.Group.Schema.{MemberRow, MetaRow}
use opensplit.Group.Tables.{Db, member, member_joined}
use opensplit.Group.Action.{Action, pure, gets, run_if, ◌>>=◌, ◌>>◌}
use opensplit.Group.Store.{
  next_seq, holds, is_active_account, find_member_by_profile, update_member_row, purge,
}
use opensplit.Group.Upkeep.{touch_activity, stage_membership, stage_purge}
use opensplit.Group.Events.{append}

-- What `forgetProfile` and `handOver` answer.
pub record Forgotten : Type 0 where
  pub forgotten : Bool
  pub purged : Bool

-- Whether another account is here; SQL's `<>` passes over a null profile.
unfoldable pub others_than : ℕ → Db → Bool
others_than profile s =
    any_row (λ m. is_active_account m && not (holds m.profile_id profile)) s.members

-- The place of a deleted account becomes a placeholder, or the group ends with it.
unfoldable pub forget_place : MetaRow → MemberRow → ℕ → Option Text → ℕ → Action Forgotten
forget_place meta m profile name now = do
  others ← gets (others_than profile)
  if others
      then (do
        seq ← next_seq
        update_member_row m.id (λ r. record r {
          profile_id = none;
          display_name = or_else name m.display_name;
          updated_at = now;
          seq = seq;
        })
        touch_activity now
        pure (record { forgotten = true; purged = false }))
      else (do
        purge now
        stage_purge meta.id now
        pure (record { forgotten = true; purged = true }))

abbrev pub in_group :
    Option MetaRow → Option MemberRow → (MetaRow → MemberRow → Action Forgotten) → Action Forgotten
in_group (some meta) (some m) k = k meta m
in_group _ _ k = pure (record { forgotten = false; purged = false })

-- An account that is being deleted.
unfoldable pub forget_profile : ℕ → Option Text → ℕ → Action Forgotten
unfolding forget_place
forget_profile profile name now = do
  meta ← gets (λ s. s.meta)
  place ← gets (λ s. find_member_by_profile s profile)
  in_group meta place (λ meta m. forget_place meta m profile name now)

-- Signing in passes an active guest's access on to the account of the same person.
unfoldable pub bring_back : MemberRow → MemberRow → ℕ → ℕ → Action (Unit {0})
bring_back m heir heir_id now = run_if (is_none m.left_at && is_some heir.left_at) do
  seq ← next_seq
  update_member_row heir.id (λ r. record r { left_at = none; updated_at = now; seq = seq })
  append (record { seq = seq; now = now; actor_id = none })
      (member member_joined heir.id
        (record { display_name = heir.display_name; previous_name = none }))
  stage_membership heir_id none now

-- The guest's place becomes the account's, unless the account holds one here already.
unfoldable pub hand_over : ℕ → ℕ → ℕ → Action Forgotten
unfolding forget_profile bring_back
hand_over profile heir_id now = do
  meta ← gets (λ s. s.meta)
  place ← gets (λ s. find_member_by_profile s profile)
  in_group meta place λ meta m. do
    heir ← gets (λ s. find_member_by_profile s heir_id)
    case_of heir
        (do
          seq ← next_seq
          update_member_row m.id
              (λ r. record r { profile_id = some heir_id; updated_at = now; seq = seq })
          stage_membership heir_id m.left_at now
          touch_activity now
          pure (record { forgotten = true; purged = false }))
        λ h. do bring_back m h heir_id now; forget_profile profile none now
