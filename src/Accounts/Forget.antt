-- ===== src/Accounts/Forget.antt =====
-- server/src/forget.ts and the end of an account in server/src/api/account.ts: an account leaves
-- every group that it was in, and D1.
pub mod Absent
pub mod TakenOut
pub mod Watch
pub mod Calls
pub mod Erased
pub mod Over
use opensplit.Prelude.{
  ℕ, zero, suc, ◌+◌, ◌-◌, ◌*◌, leb, Bool, true, false, ◌&&◌, ◌||◌, not, Option, none, some, List,
  [], ◌∷◌, ◌++◌, map, find_row, rows_where, any_row, is_none, take, length, ◌==◌, if◌then◌else◌,
}
use opensplit.Prelude.Text.{Text}
use opensplit.Group.Tables.{Db}
use opensplit.Group.Action.{Action, Outcome, done, thrown}
use opensplit.Group.Roster.Accounts.{Forgotten, forget_profile, hand_over}
use opensplit.Directory.Tables.{Directory, ProfileRow, MembershipRow}
use opensplit.Directory.Apply.{has_account, is_place}
use opensplit.Flush.{World, Answer, settle}
use opensplit.Accounts.Profiles.{write_profile, default_avatar}

-- D1 and all the objects, each at its group's id. A request runs at one instant.
pub record System : Type 0 where
  pub d1 : Directory
  pub groups : ℕ → Db
  pub alarms : ℕ → Option ℕ
  pub answers : List Answer

abbrev pub put_at : {A : Type 0} → ℕ → A → (ℕ → A) → ℕ → A
put_at g a f h = if h == g then a else f h

-- One object's share of the system, and what becomes of the system as it changes.
abbrev pub at_group : ℕ → Db → System → World
at_group g s w = record { db = s; d1 = w.d1; answers = w.answers; alarm = w.alarms g }

abbrev pub back_from : ℕ → World → System → System
back_from g v w = record {
  d1 = v.d1;
  groups = put_at g v.db w.groups;
  alarms = put_at g v.alarm w.alarms;
  answers = v.answers;
}

abbrev pub settled_call : {A : Type 0} → ℕ → ℕ → System → Outcome A → Option A × System
settled_call g now w (thrown e) = (none, w)
settled_call g now w (done a t) = (some a, back_from g (settle false now (at_group g t w)) w)

-- A method of an object that is no `Result`: its transaction, then `settle`; a throw reaches the
-- caller.
unfoldable pub call_group : {A : Type 0} → ℕ → Action A → ℕ → System → Option A × System
call_group g act now w = settled_call g now w (act (w.groups g))

-- `AccountDeletion`
pub record AccountDeletion : Type 0 where
  pub forgotten : ℕ
  pub purged : ℕ

abbrev pub counted : Forgotten → AccountDeletion → AccountDeletion
counted f c = record {
  forgotten = c.forgotten + (if f.forgotten then 1 else 0);
  purged = c.purged + (if f.purged then 1 else 0);
}

-- `forgetProfile`, or `handOver` where there is an heir.
abbrev pub leaving : Option ℕ → ℕ → Option Text → ℕ → Action Forgotten
leaving none profile name now = forget_profile profile name now
leaving (some heir) profile name now = hand_over profile heir now

unfoldable pub drop_place : ℕ → ℕ → Directory → Directory
drop_place profile group d = record d {
  memberships = rows_where (λ m. not (is_place profile group m)) d.memberships;
}

abbrev pub cut : {A : Type 0} → ℕ → Option A × System → Option (ℕ × A) × System
cut zero (o, w) = (none, w)
cut (suc lives) (none, w) = (none, w)
cut (suc lives) (some a, w) = (some (lives, a), w)

-- A call of an object, in a request that has so many steps left before it is cut off: it may be cut
-- off before the call, or between the call and what follows it.
unfoldable pub try_call :
    Option ℕ → ℕ → Option Text → ℕ → ℕ → ℕ → System → Option (ℕ × Forgotten) × System
unfolding call_group
try_call heir profile name now g zero w = (none, w)
try_call heir profile name now g (suc lives) w =
    cut lives (call_group g (leaving heir profile name now) now w)

-- What follows a call that came back.
abbrev pub next_step :
    {A B : Type 0}
    → (ℕ → A → System → Option B × System)
    → Option (ℕ × A) × System
    → Option B × System
next_step k (none, v) = (none, v)
next_step k (some (lives, a), v) = k lives a v

-- The loop of `forgetAccount` over the groups; `none` if it was cut off.
unfoldable pub forget_places :
    Option ℕ
    → ℕ
    → Option Text
    → ℕ
    → List ℕ
    → ℕ
    → AccountDeletion
    → System
    → Option (ℕ × AccountDeletion) × System
unfolding try_call drop_place
forget_places heir profile name now [] lives c w = (some (lives, c), w)
forget_places heir profile name now (g ∷ gs) lives c w =
    next_step
      (λ left f v.
        forget_places heir profile name now gs left (counted f c)
          (record v { d1 = drop_place profile g v.d1 }))
      (try_call heir profile name now g lives w)

unfoldable pub stored_name : ℕ → Directory → Option Text
stored_name profile d = elim (find_row (λ p. p.id == profile) d.profiles) [
  | none ↦ none
  | some p ↦ p.display_name
]

unfoldable pub groups_of : ℕ → Directory → List ℕ
groups_of profile d =
    map (λ (m : MembershipRow). m.group_id)
      (rows_where (λ m. m.profile_id == profile) d.memberships)

abbrev pub blanked : ℕ → ProfileRow → ProfileRow
blanked now p = record p {
  display_name = none;
  upi_vpa = none;
  avatar = default_avatar;
  deleted_at = some now;
}

-- The profile is kept, emptied.
unfoldable pub empty_profile : ℕ → ℕ → Directory → Directory
empty_profile profile now d = write_profile profile (blanked now) now d

abbrev pub emptied :
    ℕ → ℕ → Option (ℕ × AccountDeletion) × System → Option (ℕ × AccountDeletion) × System
emptied profile now (none, w) = (none, w)
emptied profile now (some (zero, c), w) = (none, w)
emptied profile now (some (suc lives, c), w) =
    (some (lives, c), record w { d1 = empty_profile profile now w.d1 })

-- `forgetAccount`, with so many steps before it is cut off.
unfoldable pub forget_account :
    Option ℕ → ℕ → ℕ → ℕ → System → Option (ℕ × AccountDeletion) × System
unfolding forget_places stored_name groups_of empty_profile
forget_account heir profile now lives w = emptied profile now (
    forget_places heir profile (stored_name profile w.d1) now (groups_of profile w.d1) lives
      (record { forgotten = 0; purged = 0 }) w)

-- One batch: the devices and the account, whose sessions go with it.
unfoldable pub delete_user : ℕ → Directory → Directory
delete_user profile d = record d {
  devices = rows_where (λ r. not (r.profile_id == profile)) d.devices;
  users = rows_where (λ u. not (u.id == profile)) d.users;
  sessions = rows_where (λ s. not (s.user_id == profile)) d.sessions;
}

-- `handOverGuest`
unfoldable pub hand_over_guest : ℕ → ℕ → ℕ → ℕ → System → Option (ℕ × AccountDeletion) × System
unfolding forget_account delete_user
hand_over_guest guest heir now lives w =
    forget_account (some heir) guest now lives (record w { d1 = delete_user guest w.d1 })

-- The session that a request comes with (server/src/context.ts).
pub record Session : Type 0 where
  pub user_id : ℕ
  pub is_anonymous : Bool
  pub created_at : ℕ

abbrev pub reauth_window : ℕ
reauth_window = 10 * 60 * 1000

-- `mayChangeIdentity`; a session from the future is recent.
unfoldable pub may_change_identity : Session → ℕ → Bool
may_change_identity session now =
    session.is_anonymous || leb (now - session.created_at) reauth_window

-- What `deleteAccount` answers: it asks for a new sign-in, or it was cut off, or what it did.
pub data DeletionReply : Type 0 where
  reauth_required interrupted : DeletionReply
  deleted : AccountDeletion → DeletionReply

abbrev pub replied : Option (ℕ × AccountDeletion) × System → DeletionReply × System
replied (none, w) = (interrupted, w)
replied (some (lives, c), w) = (deleted c, w)

-- `deleteAccount`
unfoldable pub delete_account : Session → ℕ → ℕ → System → DeletionReply × System
unfolding may_change_identity forget_account delete_user
delete_account session now lives w =
    if may_change_identity session now
    then replied (
        forget_account none session.user_id now lives
          (record w { d1 = delete_user session.user_id w.d1 }))
    else (reauth_required, w)

-- Accounts that are gone but still named in D1: `union` leaves each out but once, and the batch is
-- of a hundred. The statement gives no order; here it is that of the tables.
unfoldable pub distinct_of : List ℕ → List ℕ
distinct_of [] = []
distinct_of (n ∷ ns) =
    let rest = distinct_of ns in if any_row (λ k. k == n) ns then rest else n ∷ rest

unfoldable pub unfinished : Directory → List ℕ
unfolding distinct_of
unfinished d = take 100 (
    distinct_of (
      map (λ (m : MembershipRow). m.profile_id)
        (rows_where (λ m. not (has_account m.profile_id d)) d.memberships)
      ++ map (λ (p : ProfileRow). p.id)
          (rows_where (λ p. is_none p.deleted_at && not (has_account p.id d)) d.profiles)))

unfoldable pub finish_each : List ℕ → ℕ → ℕ → System → Option ℕ × System
unfolding forget_account
finish_each [] now lives w = (some lives, w)
finish_each (profile ∷ rest) now lives w =
    next_step (λ left c v. finish_each rest now left v) (forget_account none profile now lives w)

abbrev pub count_of : ℕ → Option ℕ × System → Option ℕ × System
count_of n (none, w) = (none, w)
count_of n (some lives, w) = (some n, w)

-- `finishDeletions`: how many, unless it was cut off.
unfoldable pub finish_deletions : ℕ → ℕ → System → Option ℕ × System
unfolding unfinished finish_each
finish_deletions now lives w =
    let ids = unfinished w.d1 in count_of (length ids) (finish_each ids now lives w)
