-- ===== src/Group/Invites/Links.antt =====
-- server/src/do/group/invites.ts, handing out and turning off what lets people in.
use opensplit.Prelude.{
  ℕ, ◌+◌, ◌*◌, ◌&&◌, not, Option, none, some, [], ◌∷◌, ◌++◌, rows_where, is_some, is_none, leb,
  ◌==◌, case_of, if◌then◌else◌,
}
use opensplit.Group.Refusal.{slot_taken}
use opensplit.Group.Tables.{
  Db, InviteRow, GroupLinkRow, link, link_created, link_revoked, invite, group_link,
}
use opensplit.Group.Action.{Action, pure, gets, modify, refuse_if, ◌>>=◌, ◌>>◌}
use opensplit.Group.Store.{WriteContext, next_seq, random_uuid, require_meta, require_member}
use opensplit.Group.Upkeep.{stage_link_token}
use opensplit.Group.Events.{Written, append}

-- In milliseconds.
abbrev pub day : ℕ
day = 86400000

abbrev pub invite_ttl : ℕ
invite_ttl = 14 * day

abbrev pub link_ttl : ℕ
link_ttl = 7 * day

-- An invite for an unclaimed place; the unspent ones before it are dropped.
unfoldable pub create_invite : ℕ → WriteContext → Action InviteRow
create_invite id c = do
  require_meta
  m ← require_member id
  refuse_if (is_some m.profile_id) slot_taken
  refuse_if (is_some m.left_at) slot_taken
  modify (λ s. record s {
    invites = rows_where (λ i. not (i.member_id == id && is_none i.redeemed_at)) s.invites;
  })
  token ← random_uuid
  let row : InviteRow = record {
    token = token;
    member_id = id;
    created_by = c.actor.id;
    created_at = c.now;
    expires_at = c.now + invite_ttl;
    redeemed_at = none;
    redeemed_by = none;
  }
  modify (λ s. record s { invites = s.invites ++ row ∷ [] })
  stage_link_token token invite c.now
  pure row

pub record GroupLink : Type 0 where
  pub token : ℕ
  pub expires_at : ℕ

abbrev pub link_of : GroupLinkRow → GroupLink
link_of l = record { token = l.token; expires_at = l.expires_at }

-- The row if it is not revoked.
abbrev pub unrevoked : Option GroupLinkRow → Option GroupLinkRow
unrevoked none = none
unrevoked (some l) = if is_none l.revoked_at then some l else none

abbrev pub append_revoked : Written → Option GroupLinkRow → Action (Unit {0})
append_revoked w none = pure tt
append_revoked w (some l) =
    append w (link link_revoked l.token (record { expires_at = l.expires_at }))

-- Mints the group's one open link in place of whatever preceded it.
unfoldable pub create_group_link : WriteContext → Action GroupLink
create_group_link c = do
  require_meta
  previous ← gets (λ s. s.group_link)
  seq ← next_seq
  token ← random_uuid
  let row : GroupLinkRow = record {
    token = token;
    created_by = c.actor.id;
    created_at = c.now;
    expires_at = c.now + link_ttl;
    revoked_at = none;
  }
  modify (λ s. record s { group_link = some row })
  let written : Written = record { seq = seq; now = c.now; actor_id = some c.actor.id }
  append_revoked written (unrevoked previous)
  append written (link link_created row.token (record { expires_at = row.expires_at }))
  stage_link_token row.token group_link c.now
  pure (link_of row)

abbrev unexpired : ℕ → Option GroupLinkRow → Option GroupLink
unexpired now none = none
unexpired now (some l) = if leb now l.expires_at then some (link_of l) else none

-- The link that a member could share now: expired or revoked is none.
unfoldable pub live_link : Db → ℕ → Option GroupLink
live_link s now = unexpired now (unrevoked s.group_link)

abbrev revoke : ℕ → Option GroupLinkRow → Option GroupLinkRow
revoke now none = none
revoke now (some l) = some (record l { revoked_at = some now })

-- Turns the open link off.
unfoldable pub revoke_group_link : WriteContext → Action (Option ℕ)
revoke_group_link c = do
  live ← gets (λ s. unrevoked s.group_link)
  case_of live (pure none) λ l. do
    seq ← next_seq
    modify (λ s. record s { group_link = revoke c.now s.group_link })
    append (record { seq = seq; now = c.now; actor_id = some c.actor.id })
        (link link_revoked l.token (record { expires_at = l.expires_at }))
    pure (some l.token)
