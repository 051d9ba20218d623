-- ===== src/Accounts/Forget/Over.antt =====
-- server/src/forget.ts, `forgetAccount`, and `deleteAccount` of server/src/api/account.ts: how far a
-- deletion has come when it ends, or is cut off.
use mathlib.Core.Path.{subst}
use opensplit.Prelude.{
  ℕ, zero, suc, ◌≡◌, refl, Bool, true, false, ◌||◌, not, Option, none, some, List, [], ◌∷◌, All,
  any_row, find_row, rows_where, map, is_some, Bool-cases, inl, inr, arith, ◌==◌,
}
use opensplit.Prelude.Text.{Text}
use opensplit.Directory.Tables.{Directory, MembershipRow, UserRow}
use opensplit.Directory.Apply.{has_account, is_purged, is_place}
use opensplit.Directory.Apply.View.{view, place_of}
use opensplit.Accounts.Profiles.{write_profile}
use opensplit.Accounts.Forget.{
  System, drop_place, next_step, forget_places, counted, AccountDeletion, groups_of, empty_profile,
  emptied, forget_account, Session, may_change_identity, DeletionReply, reauth_required,
  interrupted, deleted, replied, delete_user, delete_account,
}
use opensplit.Accounts.Forget.Calls.{
  holds_place, Owed, Left, Tried, among, try_call-Tried, dropped-Owed,
}
use opensplit.Accounts.Forget.TakenOut.{Sound}
use opensplit.Accounts.Forget.Erased.{
  Erased, IsBlank, Blanked, forget_account-Erased, forget_account-Blanked, delete_user-Erased,
}

module _ (p : ℕ) where
  -- What the loop leaves: nothing to do, unless it was cut off.
  abbrev Looped : {A : Type 0} → Option A × System → Type 0
  Looped (none, v) = (within : ℕ → Bool) × Owed p within v
  Looped (some a, v) = Owed p (among p []) v

  next_step-Looped :
      {A B : Type 0} (g : ℕ) (within : ℕ → Bool) (k : ℕ → A → System → Option B × System)
      (r : Option (ℕ × A) × System)
      → Tried p g within r
      → ((lives : ℕ) (a : A) (v : System) → Left p g within v → Looped (k lives a v))
      → Looped (next_step k r)
  next_step-Looped g within k (none, v) t h = (within, t)
  next_step-Looped g within k (some (lives, a), v) t h = h lives a v t

  forget_places-Looped :
      (name : Option Text) (now : ℕ) (gs : List ℕ) (lives : ℕ) (c : AccountDeletion) (w : System)
      → Owed p (among p gs) w
      → Looped (forget_places none p name now gs lives c w)
  unfolding forget_places
  forget_places-Looped name now [] lives c w k = k
  forget_places-Looped name now (g ∷ gs) lives c w k =
      next_step-Looped g (among p (g ∷ gs)) _ _
        (try_call-Tried p name now g lives (among p (g ∷ gs)) w k)
        (λ left f v l.
          forget_places-Looped name now gs left (counted f c)
            (record v { d1 = drop_place p g v.d1 }) (dropped-Owed p g gs v l))

  place_in_groups :
      (h : ℕ) (ms : List MembershipRow)
      → is_some (find_row (is_place p h) ms) ≡ true
      → among p (map (λ (m : MembershipRow). m.group_id) (rows_where (λ m. m.profile_id == p) ms)) h
        ≡ true
  place_in_groups h [] s = cc
  place_in_groups h (m ∷ ms) s = ground (arith, place_in_groups h ms)

  -- The account has left: it has no device, session or place in D1, its profile is empty and marked
  -- as deleted, and no group holds it that D1 does not call purged.
  pub record Gone (now : ℕ) (w : System) : Type 0 where
    pub account : has_account p w.d1 ≡ false
    pub places : (h : ℕ) → place_of p h w.d1 ≡ none
    pub groups : (h : ℕ) → holds_place p w h ≡ true → is_purged h w.d1 ≡ true
    pub erased : Erased p w.d1
    pub profiles : All (IsBlank p now) w.d1.profiles

  no_place : (o : Option MembershipRow) → (is_some o ≡ true → false ≡ true) → o ≡ none
  no_place none f = refl
  no_place (some m) f = let e = f refl in cc

  Owed-Gone :
      (now : ℕ) (w : System)
      → Owed p (among p []) w
      → Erased p w.d1
      → All (IsBlank p now) w.d1.profiles
      → Gone now w
  unfolding view
  Owed-Gone now w k erased blank =
      let places = λ (h : ℕ). no_place (place_of p h w.d1) (k.watched.only h) in
      record {
        account = k.watched.gone;
        places = places;
        groups = λ h c. rw (places h) at (k.watched.here h c);
        erased = erased;
        profiles = blank;
      }

  emptied-Owed :
      (now : ℕ) (within : ℕ → Bool) (w : System)
      → Owed p within w
      → Owed p within (record w { d1 = empty_profile p now w.d1 })
  unfolding empty_profile write_profile view place_of has_account is_purged
  emptied-Owed now within w k = record {
    watched = record { gone = k.watched.gone; here = k.watched.here; only = k.watched.only };
    sound = k.sound;
  }

  emptied-Looped :
      (now : ℕ) (r : Option (ℕ × AccountDeletion) × System) → Looped r → Looped (emptied p now r)
  emptied-Looped now (none, v) l = l
  emptied-Looped now (some (zero, c), v) l = (among p [], l)
  emptied-Looped now (some (suc lives, c), v) l = emptied-Owed now (among p []) v l

  forget_account-Looped :
      (now lives : ℕ) (w : System)
      → Owed p (among p (groups_of p w.d1)) w
      → Looped (forget_account none p now lives w)
  unfolding forget_account
  forget_account-Looped now lives w k =
      emptied-Looped now _ (forget_places-Looped _ now (groups_of p w.d1) lives _ w k)

-- Each group that holds the account is named by D1 for it, or purged there, and is well-formed.
pub record Indexed (p : ℕ) (w : System) : Type 0 where
  pub named :
      (h : ℕ) → holds_place p w h ≡ true → is_some (place_of p h w.d1) || is_purged h w.d1 ≡ true
  pub sound : (h : ℕ) → holds_place p w h ≡ true → Sound (w.groups h)

-- What the answer to a deletion says of the system that it leaves: who has not signed in of late
-- changes nothing; a deletion that was cut off has ended the account, its devices and its sessions,
-- and still each group that holds it is named by D1; a deletion that answers leaves the account gone.
abbrev pub IsAnswered : Session → ℕ → System → DeletionReply × System → Type 0
IsAnswered session now w (reauth_required, v) = (may_change_identity session now ≡ false) × (v ≡ w)
IsAnswered session now w (interrupted, v) =
    (may_change_identity session now ≡ true)
    × (has_account session.user_id v.d1 ≡ false)
    × Erased session.user_id v.d1
    × Indexed session.user_id v
IsAnswered session now w (deleted c, v) =
    (may_change_identity session now ≡ true) × Gone session.user_id now v

no_account : (p : ℕ) (d : Directory) → has_account p (delete_user p d) ≡ false
unfolding delete_user has_account
no_account p d = go d.users
  where
    go :
        (us : List UserRow)
        → any_row (λ u. u.id == p) (rows_where (λ u. not (u.id == p)) us) ≡ false
    go [] = refl
    go (u ∷ us) = ground (arith, go us)

delete_user-groups : (p : ℕ) (d : Directory) → groups_of p d ≡ groups_of p (delete_user p d)
unfolding groups_of delete_user
delete_user-groups p d = refl

Indexed-Owed :
    (p : ℕ) (w : System)
    → Indexed p w
    → Owed p (among p (groups_of p w.d1)) (record w { d1 = delete_user p w.d1 })
unfolding view groups_of delete_user is_purged place_of
Indexed-Owed p w k = record {
  watched = record {
    gone = no_account p w.d1;
    here = k.named;
    only = λ h s. place_in_groups p h w.d1.memberships s;
  };
  sound = k.sound;
}

interrupted_lem :
    (p : ℕ) (within : ℕ → Bool) (v : System)
    → Owed p within v
    → (has_account p v.d1 ≡ false) × Indexed p v
unfolding view
interrupted_lem p within v k = (k.watched.gone, record { named = k.watched.here; sound = k.sound })

replied-IsAnswered :
    (session : Session) (now : ℕ) (w : System) (r : Option (ℕ × AccountDeletion) × System)
    → may_change_identity session now ≡ true
    → Looped session.user_id r
    → Erased session.user_id r.1.d1
    → Blanked session.user_id now r
    → IsAnswered session now w (replied r)
replied-IsAnswered session now w (none, v) h l erased blank =
    let i = interrupted_lem session.user_id l.0 v l.1 in (h, i.0, erased, i.1)
replied-IsAnswered session now w (some (lives, c), v) h l erased blank =
    (h, Owed-Gone session.user_id now v l erased blank)

-- Where D1 names every group that holds the account, or calls it purged, and each such group is
-- well-formed: wherever a deletion is cut off, it has changed nothing for want of a recent sign-in;
-- or it was cut off, the account, its devices and its sessions are gone, and D1 still names every
-- group that holds it or calls it purged; or it answers, and then the account, its devices, its
-- sessions and its places in D1 are gone, its profile has no name, address or picture left and is
-- marked as deleted at that time, and no group holds the account but one that D1 calls purged.
pub delete_account-IsAnswered :
    (session : Session) (now lives : ℕ) (w : System)
    → Indexed session.user_id w
    → IsAnswered session now w (delete_account session now lives w)
unfolding delete_account
delete_account-IsAnswered session now lives w k =
    elim (Bool-cases (may_change_identity session now)) [
      | inl allowed ↦
          let p = session.user_id in
          let v : System = record w { d1 = delete_user p w.d1 } in
          let same_groups : groups_of p w.d1 ≡ groups_of p v.d1 = delete_user-groups p w.d1 in
          rw allowed (
            replied-IsAnswered session now w _ allowed
              (forget_account-Looped p now lives v
                (subst (λ gs. Owed p (among p gs) v) same_groups (Indexed-Owed p w k)))
              (forget_account-Erased p none p now lives v (delete_user-Erased p w.d1))
              (forget_account-Blanked p none now lives v))
      | inr refused ↦ rw refused (refused, refl)
    ]
