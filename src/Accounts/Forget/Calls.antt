-- ===== src/Accounts/Forget/Calls.antt =====
-- server/src/forget.ts, one round of the loop of `forgetAccount`: the call of a group's object and the
-- deletion of the place in D1.
use mathlib.Core.Path.{subst}
use opensplit.Prelude.{
  ℕ, zero, suc, ◌≡◌, refl, sym, ap, ◌∙◌, Bool, true, false, ◌||◌, not, Option, none, some, List, [],
  ◌∷◌, any_row, find_row, rows_where, is_some, Bool-cases, inl, inr, arith, ◌==◌, if◌then◌else◌,
}
use opensplit.Prelude.Text.{Text}
use opensplit.Group.Tables.{Db}
use opensplit.Group.Action.{Outcome, done, thrown}
use opensplit.Group.Action.Keeps.{After}
use opensplit.Group.Roster.Accounts.{forget_profile}
use opensplit.Directory.Tables.{Directory, MembershipRow}
use opensplit.Directory.Apply.{has_account, is_purged, is_place}
use opensplit.Directory.Apply.View.{view, place_of}
use opensplit.Flush.{settle}
use opensplit.Flush.Kept.{Kept, settle-Kept}
use opensplit.Accounts.Forget.{
  System, put_at, at_group, call_group, settled_call, try_call, cut, drop_place,
}
use opensplit.Accounts.Forget.Absent.{
  has_profile, Absent, record_sent-Absent, backoff_outbox-Absent, forget_profile-Absent,
}
use opensplit.Accounts.Forget.TakenOut.{Sound, forget_profile_takes_out}
use opensplit.Accounts.Forget.Watch.{Watched, apply_row-Watched}

abbrev pub holds_place : ℕ → System → ℕ → Bool
holds_place p w h = has_profile p (w.groups h).members

-- An account that is gone, each group that still holds it named by D1 or purged, and every place it
-- has in D1 in one of the groups that `within` names.
pub record Owed (p : ℕ) (within : ℕ → Bool) (w : System) : Type 0 where
  pub watched : Watched p (holds_place p w) within (view w.d1)
  pub sound : (h : ℕ) → holds_place p w h ≡ true → Sound (w.groups h)

module _ (p : ℕ) where
  abbrev pub Left : ℕ → (ℕ → Bool) → System → Type 0
  Left g within w = Absent p (w.groups g) × Owed p within w

  watching : (covered within : ℕ → Bool) → Kept (Absent p) (λ d. Watched p covered within (view d))
  watching covered within = record {
    record_sent = record_sent-Absent p;
    backoff = backoff_outbox-Absent p;
    apply_row = apply_row-Watched p covered within;
  }

  takes_out :
      (name : Option Text) (now : ℕ) (s : Db)
      → (has_profile p s.members ≡ true → Sound s)
      → After (Absent p) (forget_profile p name now s)
  takes_out name now s h = elim (Bool-cases (has_profile p s.members)) [
    | inl there ↦ forget_profile_takes_out p name now s (h there)
    | inr absent ↦ stays _ ((forget_profile-Absent p p name now).at s) absent
  ]
    where
      stays :
          {A : Type 0} (o : Outcome A)
          → After (λ t. Absent p s → Absent p t) o
          → Absent p s
          → After (Absent p) o
      stays (done a t) f h = f h
      stays (thrown e) f h = tt

  -- What a call of the object leaves: the account has no place in that group.
  abbrev Called : ℕ → (ℕ → Bool) → System → {A : Type 0} → Option A × System → Type 0
  Called g within w (none, v) = v ≡ w
  Called g within w (some a, v) = Left g within v

  -- A group that the account is still in is not the one it was taken out of.
  same_elsewhere :
      (g h : ℕ) (s : Db) (groups : ℕ → Db)
      → Absent p s
      → has_profile p (put_at g s groups h).members ≡ true
      → put_at g s groups h ≡ groups h
  same_elsewhere g h s groups a c = elim (Bool-cases (h == g)) [
    | inl hit ↦ not_there (sym a ∙ rw hit at c)
    | inr miss ↦ rw miss refl
  ]
    where
      not_there : false ≡ true → put_at g s groups h ≡ groups h
      not_there e = cc

  put_at_here : {A : Type 0} (g : ℕ) (a : A) (f : ℕ → A) → put_at g a f g ≡ a
  put_at_here g a f = ground arith

  settled_call-Called :
      {A : Type 0} (g : ℕ) (within : ℕ → Bool) (now : ℕ) (w : System) (o : Outcome A)
      → Owed p within w
      → After (Absent p) o
      → Called g within w (settled_call g now w o)
  settled_call-Called g within now w (thrown e) k h = refl
  settled_call-Called g within now w (done a t) k h =
      let after =
        settle-Kept (watching (holds_place p w) within) false now (at_group g t w) h k.watched in
      let s : Db = (settle false now (at_group g t w)).db in
      let elsewhere = λ (h : ℕ) (c : has_profile p (put_at g s w.groups h).members ≡ true).
        same_elsewhere g h s w.groups after.0 c in
      let held = λ (h : ℕ) (c : has_profile p (put_at g s w.groups h).members ≡ true).
        ap (λ (u : Db). has_profile p u.members) (sym (elsewhere h c)) ∙ c in
      (
        ap (λ (u : Db). has_profile p u.members) (put_at_here g s w.groups) ∙ after.0,
        record {
          watched = record {
            gone = after.1.gone;
            here = λ h c. after.1.here h (held h c);
            only = after.1.only;
          };
          sound = λ h c. subst Sound (sym (elsewhere h c)) (k.sound h (held h c));
        },
      )

  call_group-Called :
      (g : ℕ) (within : ℕ → Bool) (name : Option Text) (now : ℕ) (w : System)
      → Owed p within w
      → Called g within w (call_group g (forget_profile p name now) now w)
  unfolding call_group
  call_group-Called g within name now w k =
      settled_call-Called g within now w _ k (takes_out name now (w.groups g) (k.sound g))

  -- A call in a request that may be cut off.
  abbrev pub Tried : ℕ → (ℕ → Bool) → {A : Type 0} → Option A × System → Type 0
  Tried g within (none, v) = Owed p within v
  Tried g within (some a, v) = Left g within v

  cut-Tried :
      {A : Type 0} (g lives : ℕ) (within : ℕ → Bool) (w : System) (r : Option A × System)
      → Owed p within w
      → Called g within w r
      → Tried g within (cut lives r)
  cut-Tried g zero within w (none, v) k c = subst (Owed p within) (sym c) k
  cut-Tried g zero within w (some a, v) k c = c.1
  cut-Tried g (suc lives) within w (none, v) k c = subst (Owed p within) (sym c) k
  cut-Tried g (suc lives) within w (some a, v) k c = c

  pub try_call-Tried :
      (name : Option Text) (now g lives : ℕ) (within : ℕ → Bool) (w : System)
      → Owed p within w
      → Tried g within (try_call none p name now g lives w)
  unfolding try_call
  try_call-Tried name now g zero within w k = k
  try_call-Tried name now g (suc lives) within w k =
      cut-Tried g lives within w _ k (call_group-Called g within name now w k)

  place-drop :
      (g h : ℕ) (ms : List MembershipRow)
      → find_row (is_place p h) (rows_where (λ m. not (is_place p g m)) ms)
        ≡ (if h == g then none else find_row (is_place p h) ms)
  place-drop g h [] = ground arith
  place-drop g h (m ∷ ms) = ground (arith, place-drop g h ms)

  abbrev pub among : List ℕ → ℕ → Bool
  among gs h = any_row (λ k. k == h) gs

  place-drop_place :
      (g h : ℕ) (d : Directory)
      → place_of p h (drop_place p g d) ≡ (if h == g then none else place_of p h d)
  unfolding drop_place place_of
  place-drop_place g h d = place-drop g h d.memberships

  pub dropped-Owed :
      (g : ℕ) (gs : List ℕ) (v : System)
      → Left g (among (g ∷ gs)) v
      → Owed p (among gs) (record v { d1 = drop_place p g v.d1 })
  unfolding drop_place view has_account is_purged
  dropped-Owed g gs v l = record {
    watched = record {
      gone = l.1.watched.gone;
      here = λ h c. elim (Bool-cases (h == g)) [
        | inl hit ↦ elsewhere h (let e : h ≡ g = ground arith in rw e at c)
        | inr miss ↦ rw (place-drop_place g h v.d1, miss) (l.1.watched.here h c)
      ];
      only = λ h s. elim (Bool-cases (h == g)) [
        | inl hit ↦ nowhere h (rw (place-drop_place g h v.d1, hit) at s)
        | inr miss ↦ remains h miss (l.1.watched.only h (rw (place-drop_place g h v.d1, miss) at s))
      ];
    };
    sound = l.1.sound;
  }
    where
      elsewhere :
          (h : ℕ)
          → holds_place p v g ≡ true
          → is_some (place_of p h (drop_place p g v.d1)) || is_purged h (drop_place p g v.d1) ≡ true
      elsewhere h c = let e : false ≡ true = sym l.0 ∙ c in cc

      nowhere : (h : ℕ) → false ≡ true → among gs h ≡ true
      nowhere h e = cc

      remains : (h : ℕ) → (h == g) ≡ false → among (g ∷ gs) h ≡ true → among gs h ≡ true
      remains h miss s = ground arith
