-- ===== src/Directory/Apply/View.antt =====
-- server/src/do/group/index.ts, `apply`, seen through what the indexes answer: the membership at an
-- account and a group, and whether a group is purged.
use opensplit.Prelude.{
  ℕ, ltb, ◌≡◌, refl, Bool, true, ◌&&◌, ◌||◌, not, Option, none, some, List, [], ◌∷◌, ◌++◌, any_row,
  find_row, rows_where, ◌==◌, arith, if◌then◌else◌, Bool-cases, inl, inr,
}
use opensplit.Group.Tables.{
  OutboxRow, OutboxPayload, membership, link_token, group_purged, MembershipWrite, LinkTokenWrite,
  PurgeWrite,
}
use opensplit.Directory.Tables.{MembershipRow, PurgedGroupRow, Directory}
use opensplit.Directory.Apply.{
  has_account, is_purged, is_place, put_membership, put_purged, apply_membership, apply_link_token,
  apply_purge, apply_row, apply_payload,
}

-- What the indexes answer.
pub record View : Type 0 where
  pub known : ℕ → Bool
  pub purged : ℕ → Bool
  pub place : ℕ → ℕ → Option MembershipRow

unfoldable pub place_of : ℕ → ℕ → Directory → Option MembershipRow
place_of p g d = find_row (is_place p g) d.memberships

-- The newer of a row and the one that is there.
abbrev pub newer : MembershipRow → Option MembershipRow → Option MembershipRow
newer new none = some new
newer new (some m) = if ltb m.version new.version then some new else some m

find-put_membership :
    (p g : ℕ) (new : MembershipRow) (ms : List MembershipRow)
    → find_row (is_place p g) (put_membership new ms) ≡ (
        if is_place p g new
        then newer new (find_row (is_place p g) ms)
        else find_row (is_place p g) ms)
unfolding put_membership
find-put_membership p g new [] = ground arith
find-put_membership p g new (m ∷ ms) = ground (arith, find-put_membership p g new ms)

find-purge :
    (p g h : ℕ) (ms : List MembershipRow)
    → find_row (is_place p g) (rows_where (λ m. not (m.group_id == h)) ms)
      ≡ (if g == h then none else find_row (is_place p g) ms)
find-purge p g h [] = ground arith
find-purge p g h (m ∷ ms) = ground (arith, find-purge p g h ms)

any_row-snoc :
    (g : ℕ) (rows : List PurgedGroupRow) (x : PurgedGroupRow)
    → any_row (λ r. r.group_id == g) (rows ++ x ∷ [])
      ≡ any_row (λ r. r.group_id == g) rows || x.group_id == g
any_row-snoc g [] x = ground arith
any_row-snoc g (r ∷ rows) x = ground (arith, any_row-snoc g rows x)

already :
    (g h : ℕ) (rows : List PurgedGroupRow)
    → any_row (λ r. r.group_id == h) rows ≡ true
    → any_row (λ r. r.group_id == g) rows ≡ any_row (λ r. r.group_id == g) rows || h == g
already g h [] e = cc
already g h (r ∷ rows) e = ground (arith, already g h rows)

any_row-put_purged :
    (g : ℕ) (x : PurgedGroupRow) (rows : List PurgedGroupRow)
    → any_row (λ r. r.group_id == g) (put_purged x rows)
      ≡ any_row (λ r. r.group_id == g) rows || x.group_id == g
unfolding put_purged
any_row-put_purged g x rows = elim (Bool-cases (any_row (λ r. r.group_id == x.group_id) rows)) [
  | inl here ↦ rw here (already g x.group_id rows here)
  | inr new ↦ rw new (any_row-snoc g rows x)
]

unfoldable pub view : Directory → View
unfolding place_of has_account is_purged
view d = record {
  known = λ p. has_account p d;
  purged = λ g. is_purged g d;
  place = λ p g. place_of p g d;
}

abbrev pub written : ℕ → MembershipWrite → MembershipRow
written id w = record {
  profile_id = w.profile_id;
  group_id = w.group_id;
  left_at = w.left_at;
  updated_at = w.updated_at;
  version = id;
}

-- What a staged write does to the answers: a membership of a known account in a group that is not
-- purged stands unless a newer one does, and a purge takes the places of its group for good.
abbrev pub step_payload : OutboxPayload → ℕ → View → View
step_payload (membership w) id v = record v {
  place = λ p g.
      if v.known w.profile_id && not (v.purged w.group_id) && is_place p g (written id w)
      then newer (written id w) (v.place p g)
      else v.place p g;
}
step_payload (link_token w) id v = v
step_payload (group_purged w) id v = record v {
  purged = λ g. v.purged g || w.group_id == g;
  place = λ p g. if g == w.group_id then none else v.place p g;
}

unfoldable pub step : OutboxRow → View → View
step row v = step_payload row.payload row.id v

pub view-eq :
    (v w : View)
    → ((p : ℕ) → v.known p ≡ w.known p)
    → ((g : ℕ) → v.purged g ≡ w.purged g)
    → ((p g : ℕ) → v.place p g ≡ w.place p g)
    → v ≡ w
view-eq v w a b c i = record { known = λ p. a p i; purged = λ g. b g i; place = λ p g. c p g i }

module _ (id : ℕ) (w : MembershipWrite) (d : Directory) where
  known-apply_membership : (p : ℕ) → has_account p (apply_membership id w d) ≡ has_account p d
  unfolding apply_membership has_account
  known-apply_membership p = ground arith

  purged-apply_membership : (g : ℕ) → is_purged g (apply_membership id w d) ≡ is_purged g d
  unfolding apply_membership is_purged
  purged-apply_membership g = ground arith

  place-apply_membership :
      (p g : ℕ)
      → place_of p g (apply_membership id w d) ≡ (
          if has_account w.profile_id d
            && not (is_purged w.group_id d)
            && is_place p g (written id w)
          then newer (written id w) (place_of p g d)
          else place_of p g d)
  unfolding apply_membership place_of
  place-apply_membership p g = ground (arith, find-put_membership p g (written id w) d.memberships)

  view-apply_membership : view (apply_membership id w d) ≡ step_payload (membership w) id (view d)
  unfolding view
  view-apply_membership =
      view-eq _ _ known-apply_membership purged-apply_membership place-apply_membership

view-apply_link_token :
    (created_at : ℕ) (w : LinkTokenWrite) (d : Directory)
    → view (apply_link_token created_at w d) ≡ view d
unfolding view apply_link_token has_account is_purged place_of
view-apply_link_token created_at w d = elim (Bool-cases (is_purged w.group_id d)) [
  | inl t ↦ rw t refl
  | inr f ↦ rw f refl
]

view-apply_purge :
    (purged_at : ℕ) (w : PurgeWrite) (d : Directory)
    → view (apply_purge purged_at w d) ≡ step_payload (group_purged w) 0 (view d)
unfolding view apply_purge has_account is_purged place_of
view-apply_purge purged_at w d =
    view-eq _ _ (λ p. refl) (λ g. any_row-put_purged g _ d.purged)
      (λ p g. find-purge p g w.group_id d.memberships)

-- The tables implement the abstract index: what the indexes answer after a staged write is what the
-- step on answers says, whatever the write and whatever they held.
pub view-apply_row : (row : OutboxRow) (d : Directory) → view (apply_row row d) ≡ step row (view d)
unfolding apply_row step
view-apply_row row d = by_payload row.payload
  where
    by_payload :
        (payload : OutboxPayload)
        → view (apply_payload payload row.id row.created_at d)
          ≡ step_payload payload row.id (view d)
    by_payload (membership w) = view-apply_membership row.id w d
    by_payload (link_token w) = view-apply_link_token row.created_at w d
    by_payload (group_purged w) = view-apply_purge row.created_at w d
