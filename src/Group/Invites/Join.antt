-- ===== src/Group/Invites/Join.antt =====
-- server/src/do/group/invites.ts, `join`: walking in.
use opensplit.Prelude.{
  ℕ, Option, none, some, [], update_where, is_some, or_else, ltb, ◌==◌, case_of,
}
use opensplit.Prelude.Text.{Text, trim}
use opensplit.Group.Schema.{MemberRow, JoinRequest}
use opensplit.Group.Refusal.{slot_taken, already_member, invite_spent, invite_expired, malformed}
use opensplit.Group.Tables.{InviteRow, member, member_joined}
use opensplit.Group.Action.{Action, pure, gets, modify, refuse_if, ◌>>=◌, ◌>>◌}
use opensplit.Group.Store.{
  next_seq, random_uuid, require_meta, find_member_by_profile, require_member, insert_member,
  update_member_row,
}
use opensplit.Group.Upkeep.{stage_membership, is_nil}
use opensplit.Group.Events.{append}
use opensplit.Group.Invites.Peek.{stays, find_invite, require_live_link}

-- Coming back to the place you left.
unfoldable pub rejoin : MemberRow → ℕ → Action MemberRow
rejoin m now = do
  seq ← next_seq
  update_member_row m.id (λ r. record r { left_at = none; updated_at = now; seq = seq })
  append (record { seq = seq; now = now; actor_id = none })
      (member member_joined m.id (record { display_name = m.display_name; previous_name = none }))
  case_of m.profile_id (pure tt) (λ p. stage_membership p none now)
  require_member m.id

-- Taking over a placeholder sets one column.
unfoldable pub claim : ℕ → ℕ → ℕ → Action MemberRow
claim id profile now = do
  m ← require_member id
  refuse_if (is_some m.profile_id) slot_taken
  refuse_if (is_some m.left_at) slot_taken
  seq ← next_seq
  update_member_row id (λ r. record r { profile_id = some profile; updated_at = now; seq = seq })
  append (record { seq = seq; now = now; actor_id = none })
      (member member_joined id (record { display_name = m.display_name; previous_name = none }))
  stage_membership profile none now
  require_member id

-- Arriving as somebody new.
unfoldable pub arrive : ℕ → Text → ℕ → Action MemberRow
arrive profile given now = do
  let name = trim given
  refuse_if (is_nil name) malformed
  seq ← next_seq
  id ← random_uuid
  insert_member (record {
    id = id;
    profile_id = some profile;
    display_name = name;
    upi_vpa = none;
    joined_at = now;
    left_at = none;
    updated_at = now;
    seq = seq;
  })
  append (record { seq = seq; now = now; actor_id = none })
      (member member_joined id (record { display_name = name; previous_name = none }))
  stage_membership profile none now
  require_member id

-- Behind an invite: the place it names, or the one that was left.
unfoldable pub join_by_invite : InviteRow → Option MemberRow → ℕ → ℕ → Action MemberRow
unfolding rejoin claim
join_by_invite i previous profile now = do
  refuse_if (is_some i.redeemed_at) invite_spent
  refuse_if (ltb i.expires_at now) invite_expired
  let take_over : Action MemberRow = do
    modify (λ s. record s {
      invites =
          update_where (λ r. r.token == i.token)
            (λ r. record r { redeemed_at = some now; redeemed_by = some profile }) s.invites;
    })
    claim i.member_id profile now
  case_of previous take_over (λ m. rejoin m now)

-- Behind the open link: the place that was left, a placeholder, or a new one.
unfoldable pub join_by_link : ℕ → Option MemberRow → ℕ → JoinRequest → ℕ → Action MemberRow
unfolding require_live_link rejoin claim arrive
join_by_link token previous profile request now = do
  require_live_link token now
  let walk_in : Action MemberRow =
      case_of request.member_id (arrive profile (or_else request.display_name []) now)
        (λ id. claim id profile now)
  case_of previous walk_in (λ m. rejoin m now)

-- Walking in. Never a second place for one account: somebody who left gets their own place back.
unfoldable pub join : ℕ → ℕ → JoinRequest → ℕ → Action MemberRow
unfolding join_by_invite join_by_link find_invite
join token profile request now = do
  require_meta
  previous ← gets (λ s. find_member_by_profile s profile)
  refuse_if (stays previous) already_member
  found ← gets (λ s. find_invite s token)
  case_of found (join_by_link token previous profile request now)
      (λ i. join_by_invite i previous profile now)
