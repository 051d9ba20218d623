-- ===== src/Group/Frame/Invites.antt =====
-- The operations of server/src/do/group/invites.ts are composed of the changes of a frame.
use opensplit.Prelude.{ℕ, Option, none, some, List}
use opensplit.Prelude.Text.{Text}
use opensplit.Group.Schema.{MemberRow, JoinRequest}
use opensplit.Group.Tables.{InviteRow, GroupLinkRow}
use opensplit.Group.Action.{modify}
use opensplit.Group.Action.Keeps.{Order, Keeps, Keeps-pure, Keeps-modify, keeps_rules}
use opensplit.Group.Store.{WriteContext}
use opensplit.Group.Events.{Written}
use opensplit.Group.Frame.{Frame, random_uuid-Keeps, append-Keeps, stage_link_token-Keeps}
use opensplit.Group.Frame.Roster.{frame_rules}
use opensplit.Group.Invites.Links.{
  create_invite, append_revoked, create_group_link, revoke_group_link,
}
use opensplit.Group.Invites.Peek.{require_live_link}
use opensplit.Group.Invites.Join.{rejoin, claim, arrive, join_by_invite, join_by_link, join}

module _ {O : Order} where
  set_invites-Keeps :
      Frame O
      → (f : List InviteRow → List InviteRow)
      → Keeps O (modify (λ s. record s { invites = f s.invites }))
  set_invites-Keeps f g = Keeps-modify _ (λ s. f.invites s (g s.invites))

  set_group_link-Keeps :
      Frame O
      → (f : Option GroupLinkRow → Option GroupLinkRow)
      → Keeps O (modify (λ s. record s { group_link = f s.group_link }))
  set_group_link-Keeps f g = Keeps-modify _ (λ s. f.group_link s (g s.group_link))

  append_revoked-Keeps :
      Frame O → (w : Written) (l : Option GroupLinkRow) → Keeps O (append_revoked w l)
  append_revoked-Keeps f w none = Keeps-pure tt
  append_revoked-Keeps f w (some l) = append-Keeps f w _

  pub create_invite-Keeps : Frame O → (id : ℕ) (c : WriteContext) → Keeps O (create_invite id c)
  unfolding create_invite
  create_invite-Keeps f id c =
      search (frame_rules, random_uuid-Keeps, stage_link_token-Keeps, Keeps-modify, f.invites) depth
        30

  pub create_group_link-Keeps : Frame O → (c : WriteContext) → Keeps O (create_group_link c)
  unfolding create_group_link
  create_group_link-Keeps f c =
      search
        (
          frame_rules, random_uuid-Keeps, stage_link_token-Keeps, append_revoked-Keeps,
          Keeps-modify, f.group_link,
        )
        depth 30

  pub revoke_group_link-Keeps : Frame O → (c : WriteContext) → Keeps O (revoke_group_link c)
  unfolding revoke_group_link
  revoke_group_link-Keeps f c = search (frame_rules, Keeps-modify, f.group_link) depth 30

  require_live_link-Keeps : (token now : ℕ) → Keeps O (require_live_link token now)
  unfolding require_live_link
  require_live_link-Keeps token now = search keeps_rules depth 20

  rejoin-Keeps : Frame O → (m : MemberRow) (now : ℕ) → Keeps O (rejoin m now)
  unfolding rejoin
  rejoin-Keeps f m now = search frame_rules depth 30

  claim-Keeps : Frame O → (id profile now : ℕ) → Keeps O (claim id profile now)
  unfolding claim
  claim-Keeps f id profile now = search frame_rules depth 30

  arrive-Keeps :
      Frame O → (profile : ℕ) (given : Text) (now : ℕ) → Keeps O (arrive profile given now)
  unfolding arrive
  arrive-Keeps f profile given now = search (frame_rules, random_uuid-Keeps) depth 30

  join_by_invite-Keeps :
      Frame O
      → (i : InviteRow) (previous : Option MemberRow) (profile now : ℕ)
      → Keeps O (join_by_invite i previous profile now)
  unfolding join_by_invite
  join_by_invite-Keeps f i previous profile now =
      search (keeps_rules, rejoin-Keeps, claim-Keeps, Keeps-modify, f.invites) depth 30

  join_by_link-Keeps :
      Frame O
      → (token : ℕ) (previous : Option MemberRow) (profile : ℕ) (request : JoinRequest) (now : ℕ)
      → Keeps O (join_by_link token previous profile request now)
  unfolding join_by_link
  join_by_link-Keeps f token previous profile request now =
      search (keeps_rules, require_live_link-Keeps, rejoin-Keeps, claim-Keeps, arrive-Keeps) depth
        30

  pub join-Keeps :
      Frame O
      → (token profile : ℕ) (request : JoinRequest) (now : ℕ)
      → Keeps O (join token profile request now)
  unfolding join
  join-Keeps f token profile request now =
      search (frame_rules, join_by_invite-Keeps, join_by_link-Keeps) depth 30
