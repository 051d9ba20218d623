-- ===== src/Accounts/Forget/TakenOut.antt =====
-- server/src/do/group/roster.ts, `forgetProfile`: the account has no place in the group afterwards.
use opensplit.Prelude.{
  ℕ, ◌≡◌, refl, Bool, true, false, ◌||◌, not, Option, none, some, List, [], ◌∷◌, find_row, any_row,
  update_where, is_some, ap, case_of, Bool-cases, inl, inr, arith, ◌==◌,
}
use opensplit.Prelude.Text.{Text}
use opensplit.Group.Schema.{MemberRow, MetaRow}
use opensplit.Group.Tables.{Db}
use opensplit.Group.Action.{Action, Outcome, done, thrown, continue, ◌>>=◌}
use opensplit.Group.Action.Keeps.{After, Keeps, Keeps-pure, Keeps-bind, Preserving}
use opensplit.Group.Store.{
  next_seq, require_meta, update_member_row, empty_tables, purge, holds, distinct_profiles,
  find_member_by_profile,
}
use opensplit.Group.Upkeep.{is_nil}
use opensplit.Group.Roster.Accounts.{forget_place, forget_profile, in_group, others_than}
use opensplit.Accounts.Forget.Absent.{
  has_profile, Absent, absent_update, set_members-Absent, touch_activity-Absent, stage_purge-Absent,
}

-- A group that exists, or nobody in it; and one place for an account at most.
pub record Sound (s : Db) : Type 0 where
  pub profiles : distinct_profiles s.members ≡ true
  pub empty : is_some s.meta || is_nil s.members ≡ true

-- No other row has the account of a row.
rest_free :
    (o : Option ℕ) (p : ℕ) (rows : List MemberRow)
    → holds o p ≡ true
    → (elim o as (λ _. Bool) [
      | none ↦ true
      | some q ↦ not (any_row (λ n. holds n.profile_id q) rows)
    ])
      ≡ true
    → has_profile p rows ≡ false
rest_free none p rows h d = cc
rest_free (some q) p rows h d =
    let same_account : q ≡ p = ground arith in
    let free : has_profile q rows ≡ false = ground arith in rw same_account at free

taken_out :
    (p : ℕ) (m : MemberRow) (change : MemberRow → MemberRow) (rows : List MemberRow)
    → ((r : MemberRow) → (change r).profile_id ≡ none)
    → distinct_profiles rows ≡ true
    → find_row (λ m. holds m.profile_id p) rows ≡ some m
    → has_profile p (update_where (λ r. r.id == m.id) change rows) ≡ false
unfolding distinct_profiles
taken_out p m change [] c d h = refl
taken_out p m change (r ∷ rows) c d h = elim (Bool-cases (holds r.profile_id p)) [
  | inl hit ↦
      let same_row : some r ≡ some m = rw hit at h in
      let same_id : r.id ≡ m.id = ap (λ (o : Option MemberRow). case_of o 0 (λ a. a.id)) same_row in
      let free = rest_free r.profile_id p rows hit (ground arith) in
      let eq : (r.id == m.id) ≡ true = ground arith in
      rw (eq, c r) (absent_update p _ change rows c free)
  | inr miss ↦
      let rest = taken_out p m change rows c (ground arith) (rw miss at h) in
      elim (Bool-cases (r.id == m.id)) [
        | inl hit ↦ rw (hit, c r) rest
        | inr other ↦ rw (other, miss) rest
      ]
]

reset-Absent :
    (p id : ℕ) (change : MemberRow → MemberRow) (s : Db)
    → has_profile p (update_where (λ r. r.id == id) change s.members) ≡ false
    → After (Absent p) (update_member_row id change s)
unfolding update_member_row ◌>>=◌
reset-Absent p id change s h = set_members-Absent p _ s h

After-bind :
    {A B : Type 0} (P : Db → Type 0) (o : Outcome A) (k : A → Action B)
    → After P o
    → ((a : A) → Keeps (Preserving P) (k a))
    → After P (continue k o)
After-bind P (thrown e) k h g = tt
After-bind {B = B} P (done a t) k h g = go (k a t) ((g a).at t)
  where
    go : (o : Outcome B) → After (λ u. P t → P u) o → After P o
    go (done b u) f = f h
    go (thrown e) f = tt

purged-Absent : (p now : ℕ) (s : Db) → After (Absent p) (purge now s)
unfolding purge next_seq require_meta empty_tables ◌>>=◌
purged-Absent p now s = ground arith

forget_place_takes_out :
    (p : ℕ) (m : MemberRow) (name : Option Text) (now : ℕ) (s : Db)
    → distinct_profiles s.members ≡ true
    → find_member_by_profile s p ≡ some m
    → (meta : MetaRow) → After (Absent p) (forget_place meta m p name now s)
unfolding forget_place next_seq find_member_by_profile ◌>>=◌
forget_place_takes_out p m name now s d found meta = elim (Bool-cases (others_than p s)) [
  | inl others ↦ rw others (
      After-bind (Absent p) _ _
        (reset-Absent p m.id _ _ (taken_out p m _ s.members (λ r. refl) d found))
        (λ _. Keeps-bind _ _ (touch_activity-Absent p now) (λ _. Keeps-pure _)))
  | inr alone ↦ rw alone (
      After-bind (Absent p) _ _ (purged-Absent p now s)
        (λ _. Keeps-bind _ _ (stage_purge-Absent p meta.id now) (λ _. Keeps-pure _)))
]

find_none :
    (p : ℕ) (rows : List MemberRow)
    → find_row (λ m. holds m.profile_id p) rows ≡ none
    → has_profile p rows ≡ false
find_none p [] h = refl
find_none p (r ∷ rows) h = ground (arith, find_none p rows)

nobody : (p : ℕ) (s : Db) → is_nil s.members ≡ true → Absent p s
nobody p s h = go s.members h
  where
    go : (rows : List MemberRow) → is_nil rows ≡ true → has_profile p rows ≡ false
    go [] h = refl
    go (r ∷ rows) h = cc

-- Forgetting an account that returns has left the group without it.
pub forget_profile_takes_out :
    (p : ℕ) (name : Option Text) (now : ℕ) (s : Db)
    → Sound s
    → After (Absent p) (forget_profile p name now s)
unfolding forget_profile ◌>>=◌ find_member_by_profile
forget_profile_takes_out p name now s sound =
    go s.meta (find_member_by_profile s p) refl sound.empty
  where
    go :
        (meta : Option MetaRow) (place : Option MemberRow)
        → find_member_by_profile s p ≡ place
        → is_some meta || is_nil s.members ≡ true
        → After (Absent p) (in_group meta place (λ a b. forget_place a b p name now) s)
    go none none e h = nobody p s h
    go none (some m) e h = nobody p s h
    go (some a) none e h = find_none p s.members e
    go (some a) (some m) e h = forget_place_takes_out p m name now s sound.profiles e a
