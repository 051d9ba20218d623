-- ===== src/Group/Invites/Peek.antt =====
-- server/src/do/group/invites.ts, what a token shows without spending it.
use opensplit.Prelude.{
  ℕ, Bool, false, ◌&&◌, Option, none, some, List, length, map, find_row, rows_where, is_some,
  is_none, ltb, ◌==◌, if◌then◌else◌,
}
use opensplit.Prelude.Text.{Text}
use opensplit.Group.Schema.{MemberRow, MetaRow}
use opensplit.Group.Refusal.{invite_invalid, invite_spent, invite_expired}
use opensplit.Group.Tables.{Db, InviteRow, GroupLinkRow, LinkKind, invite, group_link}
use opensplit.Group.Action.{Action, gets, or_refuse, refuse_if, ◌>>=◌, ◌>>◌}
use opensplit.Group.Store.{require_meta, find_member_by_profile, find_member}

pub record LinkPreview : Type 0 where
  pub kind : LinkKind
  pub group_id : ℕ
  pub group_name : Text
  pub inviter_name : Option Text
  pub member_count : ℕ
  pub member_name : Option Text
  pub is_redeemed : Bool
  pub is_expired : Bool
  pub is_revoked : Bool
  pub is_member : Bool
  pub has_left : Bool

abbrev pub name_of : Option MemberRow → Option Text
name_of none = none
name_of (some m) = some m.display_name

abbrev viewer_place : Db → Option ℕ → Option MemberRow
viewer_place s none = none
viewer_place s (some viewer) = find_member_by_profile s viewer

abbrev pub stays : Option MemberRow → Bool
stays none = false
stays (some m) = is_none m.left_at

abbrev went : Option MemberRow → Bool
went none = false
went (some m) = is_some m.left_at

unfoldable pub find_invite : Db → ℕ → Option InviteRow
find_invite s token = find_row (λ i. i.token == token) s.invites

abbrev link_with : ℕ → Option GroupLinkRow → Option GroupLinkRow
link_with token none = none
link_with token (some l) = if l.token == token then some l else none

unfoldable pub find_link : Db → ℕ → Option GroupLinkRow
find_link s token = link_with token s.group_link

abbrev preview_link : Db → MetaRow → Option MemberRow → ℕ → Option GroupLinkRow → Option LinkPreview
preview_link s meta place now none = none
preview_link s meta place now (some l) = some (record {
  kind = group_link;
  group_id = meta.id;
  group_name = meta.name;
  inviter_name = name_of (find_member s l.created_by);
  member_count = length (rows_where (λ m. is_none m.left_at) s.members);
  member_name = none;
  is_redeemed = false;
  is_expired = ltb l.expires_at now;
  is_revoked = is_some l.revoked_at;
  is_member = stays place;
  has_left = went place;
})

abbrev preview :
    Db
    → MetaRow
    → Option MemberRow
    → ℕ
    → Option InviteRow
    → Option GroupLinkRow
    → Option LinkPreview
preview s meta place now none found = preview_link s meta place now found
preview s meta place now (some i) found = some (record {
  kind = invite;
  group_id = meta.id;
  group_name = meta.name;
  inviter_name = name_of (find_member s i.created_by);
  member_count = length (rows_where (λ m. is_none m.left_at) s.members);
  member_name = name_of (find_member s i.member_id);
  is_redeemed = is_some i.redeemed_at;
  is_expired = ltb i.expires_at now;
  is_revoked = false;
  is_member = stays place;
  has_left = went place;
})

-- What a link is for, without spending it.
unfoldable pub peek : ℕ → Option ℕ → ℕ → Action (Option LinkPreview)
unfolding find_invite find_link
peek token viewer now = do
  meta ← require_meta
  gets (λ s. preview s meta (viewer_place s viewer) now (find_invite s token) (find_link s token))

-- A link that is known, not turned off and not expired.
unfoldable pub require_live_link : ℕ → ℕ → Action (Unit {0})
require_live_link token now = do
  found ← gets (λ s. find_link s token)
  l ← or_refuse found invite_invalid
  refuse_if (is_some l.revoked_at) invite_spent
  refuse_if (ltb l.expires_at now) invite_expired

pub record Placeholder : Type 0 where
  pub id : ℕ
  pub display_name : Text

-- The unclaimed places behind an open link. The order by name is left out: it is the database's.
unfoldable pub placeholders : ℕ → ℕ → Action (List Placeholder)
unfolding require_live_link
placeholders token now = do
  require_meta
  require_live_link token now
  gets (λ s.
      map (λ (m : MemberRow). record { id = m.id; display_name = m.display_name })
        (rows_where (λ m. is_none m.profile_id && is_none m.left_at) s.members))
