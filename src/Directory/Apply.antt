-- ===== src/Directory/Apply.antt =====
-- server/src/do/group/index.ts, `apply`: one staged write, as D1 takes it.
pub mod View
pub mod Links
pub mod Delivery
use opensplit.Prelude.{
  ℕ, ltb, Bool, true, false, ◌&&◌, not, Option, none, some, List, [], ◌∷◌, ◌++◌, any_row, find_row,
  rows_where, ◌==◌, if◌then◌else◌,
}
use opensplit.Group.Tables.{
  OutboxRow, OutboxPayload, membership, link_token, group_purged, MembershipWrite, LinkTokenWrite,
  PurgeWrite,
}
use opensplit.Directory.Tables.{UserRow, MembershipRow, LinkTokenRow, PurgedGroupRow, Directory}

-- Whether D1 took a write, or the account behind a membership no longer exists.
pub data Applied : Type 0 where
  applied account_gone : Applied

unfoldable pub has_account : ℕ → Directory → Bool
has_account profile d = any_row (λ u. u.id == profile) d.users

unfoldable pub is_purged : ℕ → Directory → Bool
is_purged group d = any_row (λ g. g.group_id == group) d.purged

abbrev pub is_place : ℕ → ℕ → MembershipRow → Bool
is_place profile group m = m.profile_id == profile && m.group_id == group

-- `insert … on conflict (profile_id, group_id) do update … where excluded.version > version`
unfoldable pub put_membership : MembershipRow → List MembershipRow → List MembershipRow
put_membership new [] = new ∷ []
put_membership new (m ∷ ms) =
    let rest = m ∷ put_membership new ms in
    if is_place new.profile_id new.group_id m
    then (if ltb m.version new.version then new else m) ∷ ms
    else rest

-- `insert … on conflict (token) do nothing`
unfoldable pub put_link_token : LinkTokenRow → List LinkTokenRow → List LinkTokenRow
put_link_token new rows =
    if any_row (λ l. l.token == new.token) rows then rows else rows ++ new ∷ []

-- `insert … on conflict do nothing`
unfoldable pub put_purged : PurgedGroupRow → List PurgedGroupRow → List PurgedGroupRow
put_purged new rows =
    if any_row (λ g. g.group_id == new.group_id) rows then rows else rows ++ new ∷ []

unfoldable pub apply_membership : ℕ → MembershipWrite → Directory → Directory
unfolding put_membership has_account is_purged
apply_membership id w d =
    if has_account w.profile_id d && not (is_purged w.group_id d)
    then record d {
      memberships =
          put_membership
            (record {
              profile_id = w.profile_id;
              group_id = w.group_id;
              left_at = w.left_at;
              updated_at = w.updated_at;
              version = id;
            })
            d.memberships;
    }
    else d

unfoldable pub apply_link_token : ℕ → LinkTokenWrite → Directory → Directory
unfolding put_link_token is_purged
apply_link_token created_at w d = if is_purged w.group_id d then d else record d {
  link_tokens =
      put_link_token
        (record {
          token = w.token;
          group_id = w.group_id;
          kind = w.token_kind;
          created_at = created_at;
        })
        d.link_tokens;
}

-- One batch: the group is on record as purged, and its indexes are gone.
unfoldable pub apply_purge : ℕ → PurgeWrite → Directory → Directory
unfolding put_purged
apply_purge purged_at w d = record d {
  purged = put_purged (record { group_id = w.group_id; purged_at = purged_at }) d.purged;
  memberships = rows_where (λ m. not (m.group_id == w.group_id)) d.memberships;
  link_tokens = rows_where (λ l. not (l.group_id == w.group_id)) d.link_tokens;
}

abbrev pub apply_payload : OutboxPayload → ℕ → ℕ → Directory → Directory
apply_payload (membership w) id created_at d = apply_membership id w d
apply_payload (link_token w) id created_at d = apply_link_token created_at w d
apply_payload (group_purged w) id created_at d = apply_purge created_at w d

unfoldable pub apply_row : OutboxRow → Directory → Directory
unfolding apply_membership apply_link_token apply_purge
apply_row row d = apply_payload row.payload row.id row.created_at d

abbrev outcome_of : OutboxPayload → Directory → Applied
outcome_of (membership w) d = if has_account w.profile_id d then applied else account_gone
outcome_of _ d = applied

-- What `apply` answers: it looks for the account after the write.
unfoldable pub applied_as : OutboxRow → Directory → Applied
unfolding has_account
applied_as row d = outcome_of row.payload d
