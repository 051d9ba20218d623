-- ===== src/Group/Frame/Roster.antt =====
-- The operations of server/src/do/group/roster.ts are composed of the changes of a frame.
use opensplit.Prelude.{ℕ, Option, none, some}
use opensplit.Prelude.Text.{Text}
use opensplit.Group.Schema.{MemberRow, MetaRow, MemberInput, GroupInput}
use opensplit.Group.Action.{Action}
use opensplit.Group.Action.Keeps.{
  Order, Keeps, Keeps-pure, Keeps-if, Keeps-bind, Keeps-modify, keeps_rules,
}
use opensplit.Group.Store.{WriteContext}
use opensplit.Group.Frame.{
  Frame, next_seq-Keeps, require_meta-Keeps, require_member-Keeps, insert_member-Keeps,
  update_member_row-Keeps, append-Keeps, touch_activity-Keeps, stage_membership-Keeps,
  stage_purge-Keeps, purge-Keeps, collect_unowned-Keeps,
}
use opensplit.Group.Roster.Settings.{set_meta, create_group, update_group}
use opensplit.Group.Roster.Members.{
  add_member, Edit, assert_editable, assert_last_out, stage_place, apply_edit, update_member,
  put_member,
}
use opensplit.Group.Roster.Accounts.{
  Forgotten, forget_place, in_group, forget_profile, bring_back, hand_over,
}

pub ruleset frame_rules = (
  keeps_rules, next_seq-Keeps, require_meta-Keeps, require_member-Keeps, insert_member-Keeps,
  update_member_row-Keeps, append-Keeps, touch_activity-Keeps, stage_membership-Keeps,
  stage_purge-Keeps, purge-Keeps, collect_unowned-Keeps,
)

module _ {O : Order} where
  set_meta-Keeps : Frame O → (row : MetaRow) → Keeps O (set_meta row)
  unfolding set_meta
  set_meta-Keeps f row =
      Keeps-bind _ _ (search keeps_rules)
        λ _. Keeps-bind _ _ (search keeps_rules) λ _. Keeps-modify _ (λ s. f.meta s (some row))

  pub create_group-Keeps :
      Frame O
      → (id : ℕ) (input : GroupInput) (profile now : ℕ)
      → Keeps O (create_group id input profile now)
  unfolding create_group
  create_group-Keeps f id input profile now = search (frame_rules, set_meta-Keeps) depth 20

  pub update_group-Keeps :
      Frame O → (input : GroupInput) (c : WriteContext) → Keeps O (update_group input c)
  unfolding update_group
  update_group-Keeps f input c = search (frame_rules, set_meta-Keeps) depth 20

  add_member-Keeps :
      Frame O → (id : ℕ) (input : MemberInput) (c : WriteContext) → Keeps O (add_member id input c)
  unfolding add_member
  add_member-Keeps f id input c = search frame_rules depth 20

  assert_editable-Keeps :
      (target : MemberRow) (e : Edit) (actor : MemberRow) → Keeps O (assert_editable target e actor)
  unfolding assert_editable
  assert_editable-Keeps target e actor = search keeps_rules depth 20

  assert_last_out-Keeps : (target : MemberRow) (e : Edit) → Keeps O (assert_last_out target e)
  unfolding assert_last_out
  assert_last_out-Keeps target e = search keeps_rules depth 20

  stage_place-Keeps : Frame O → (p left : Option ℕ) (now : ℕ) → Keeps O (stage_place p left now)
  stage_place-Keeps f none left now = Keeps-pure tt
  stage_place-Keeps f (some p) left now = stage_membership-Keeps f p left now

  apply_edit-Keeps :
      Frame O
      → (target : MemberRow) (e : Edit) (input : MemberInput) (c : WriteContext)
      → Keeps O (apply_edit target e input c)
  unfolding apply_edit
  apply_edit-Keeps f target e input c = search (frame_rules, stage_place-Keeps) depth 30

  update_member-Keeps :
      Frame O
      → (id : ℕ) (input : MemberInput) (c : WriteContext) → Keeps O (update_member id input c)
  unfolding update_member
  update_member-Keeps f id input c =
      search (frame_rules, assert_editable-Keeps, assert_last_out-Keeps, apply_edit-Keeps) depth 20

  pub put_member-Keeps :
      Frame O → (id : ℕ) (input : MemberInput) (c : WriteContext) → Keeps O (put_member id input c)
  unfolding put_member
  put_member-Keeps f id input c =
      search (keeps_rules, add_member-Keeps, update_member-Keeps) depth 20

  forget_place-Keeps :
      Frame O
      → (meta : MetaRow) (m : MemberRow) (profile : ℕ) (name : Option Text) (now : ℕ)
      → Keeps O (forget_place meta m profile name now)
  unfolding forget_place
  forget_place-Keeps f meta m profile name now = search frame_rules depth 20

  Keeps-in_group :
      (meta : Option MetaRow) (m : Option MemberRow) (k : MetaRow → MemberRow → Action Forgotten)
      → ((meta : MetaRow) (m : MemberRow) → Keeps O (k meta m))
      → Keeps O (in_group meta m k)
  Keeps-in_group (some meta) (some m) k h = h meta m
  Keeps-in_group (some meta) none k h = Keeps-pure _
  Keeps-in_group none _ k h = Keeps-pure _

  pub forget_profile-Keeps :
      Frame O
      → (profile : ℕ) (name : Option Text) (now : ℕ) → Keeps O (forget_profile profile name now)
  unfolding forget_profile
  forget_profile-Keeps f profile name now =
      search (keeps_rules, Keeps-in_group, forget_place-Keeps) depth 20

  bring_back-Keeps :
      Frame O → (m heir : MemberRow) (heir_id now : ℕ) → Keeps O (bring_back m heir heir_id now)
  unfolding bring_back
  bring_back-Keeps f m heir heir_id now = search frame_rules depth 20

  pub hand_over-Keeps :
      Frame O → (profile heir_id now : ℕ) → Keeps O (hand_over profile heir_id now)
  unfolding hand_over
  hand_over-Keeps f profile heir_id now =
      search (frame_rules, Keeps-in_group, bring_back-Keeps, forget_profile-Keeps) depth 20
