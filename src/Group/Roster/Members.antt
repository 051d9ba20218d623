-- ===== src/Group/Roster/Members.antt =====
-- server/src/do/group/roster.ts, `putMember`: a new placeholder, or an edit of a member.
use opensplit.Prelude.{
  ℕ, Bool, ◌&&◌, ◌||◌, not, Option, none, some, any_row, is_some, is_none, or_else, ◌==◌, same,
  if◌then◌else◌,
}
use opensplit.Prelude.Text.{Text-discrete, Option-Text-discrete}
use opensplit.Group.Schema.{MemberRow, MemberInput}
use opensplit.Group.Refusal.{malformed, stale_base, forbidden, not_settled}
use opensplit.Group.Tables.{Db, member, member_added, member_left, member_renamed}
use opensplit.Group.Action.{Action, pure, gets, refuse_if, run_if, ◌>>=◌, ◌>>◌}
use opensplit.Group.Store.{
  WriteContext, next_seq, holds, is_active_account, find_member, require_member, insert_member,
  update_member_row,
}
use opensplit.Group.Balances.{is_settled, is_group_settled}
use opensplit.Group.Upkeep.{stage_membership, collect_unowned}
use opensplit.Group.Events.{Written, append}

-- A placeholder: a full member who has never opened the app.
unfoldable pub add_member : ℕ → MemberInput → WriteContext → Action MemberRow
add_member id input c = do
  refuse_if (is_some input.left_at) malformed
  seq ← next_seq
  insert_member (record {
    id = id;
    profile_id = none;
    display_name = input.display_name;
    upi_vpa = input.upi_vpa;
    joined_at = c.now;
    left_at = none;
    updated_at = c.now;
    seq = seq;
  })
  append (record { seq = seq; now = c.now; actor_id = some c.actor.id })
      (member member_added id (record { display_name = input.display_name; previous_name = none }))
  require_member id

-- What an edit asks for, seen from the row it edits.
pub record Edit : Type 0 where
  pub left_at : Option ℕ
  pub leaving : Bool
  pub returning : Bool
  pub renamed : Bool
  pub repaid : Bool

-- The device says whether somebody has left; the server's clock says when, once.
unfoldable pub edit_of : MemberRow → MemberInput → ℕ → Edit
edit_of target input now = record {
  left_at = if is_some input.left_at then some (or_else target.left_at now) else none;
  leaving = is_some input.left_at && is_none target.left_at;
  returning = is_none input.left_at && is_some target.left_at;
  renamed = not (same Text-discrete input.display_name target.display_name);
  repaid = not (same Option-Text-discrete input.upi_vpa target.upi_vpa);
}

-- Whether an account other than this row's is still here.
unfoldable pub other_active : ℕ → Db → Bool
other_active id s = any_row (λ m. is_active_account m && not (m.id == id)) s.members

-- The column rules, before anything is known to change.
unfoldable pub assert_editable : MemberRow → Edit → MemberRow → Action (Unit {0})
assert_editable target e actor = do
  refuse_if ((e.renamed || e.repaid) && is_some target.profile_id && not (target.id == actor.id))
      forbidden
  settled ← gets (λ s. is_settled s target.id)
  refuse_if (e.leaving && not settled) not_settled
  refuse_if (e.returning && is_some target.profile_id) forbidden

-- The last account to leave closes the group, so then nobody may owe anything.
unfoldable pub assert_last_out : MemberRow → Edit → Action (Unit {0})
assert_last_out target e = do
  accompanied ← gets (other_active target.id)
  all_settled ← gets is_group_settled
  refuse_if (e.leaving && is_some target.profile_id && not accompanied && not all_settled)
      not_settled

abbrev pub stage_place : Option ℕ → Option ℕ → ℕ → Action (Unit {0})
stage_place none left now = pure tt
stage_place (some profile) left now = stage_membership profile left now

-- The edit itself: the row, its lines of activity, its place in D1, and the end of the group when
-- nobody is left.
unfoldable pub apply_edit : MemberRow → Edit → MemberInput → WriteContext → Action MemberRow
apply_edit target e input c = do
  seq ← next_seq
  update_member_row target.id (λ m. record m {
    display_name = input.display_name;
    upi_vpa = input.upi_vpa;
    left_at = e.left_at;
    updated_at = c.now;
    seq = seq;
  })
  let written : Written = record { seq = seq; now = c.now; actor_id = some c.actor.id }
  run_if e.leaving (
      append written (
        member member_left target.id
          (record { display_name = input.display_name; previous_name = none })))
  run_if e.returning (
      append written (
        member member_added target.id
          (record { display_name = input.display_name; previous_name = none })))
  run_if e.renamed (
      append written (
        member member_renamed target.id
          (record { display_name = input.display_name; previous_name = some target.display_name })))
  stage_place target.profile_id e.left_at c.now
  result ← require_member target.id
  run_if e.leaving (do collect_unowned c.now; pure tt)
  pure result

abbrev is_idle : Edit → Bool
is_idle e = not e.renamed && not e.repaid && not e.leaving && not e.returning

unfoldable pub update_member : ℕ → MemberInput → WriteContext → Action MemberRow
unfolding edit_of assert_editable assert_last_out apply_edit
update_member id input c = do
  target ← require_member id
  let e = edit_of target input c.now
  assert_editable target e c.actor
  let apply : Action MemberRow = do
    refuse_if (not (holds input.base_seq target.seq)) stale_base
    assert_last_out target e
    apply_edit target e input c
  if is_idle e then pure target else apply

-- A member row at the id that the device minted: a new placeholder, or an edit.
unfoldable pub put_member : ℕ → MemberInput → WriteContext → Action MemberRow
unfolding add_member update_member
put_member id input c = do
  existing ← gets (λ s. find_member s id)
  if is_some existing then update_member id input c else add_member id input c
