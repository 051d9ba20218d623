-- ===== src/Accounts/Profiles/History.antt =====
-- Histories of the writes of profiles: creating an account (server/src/auth.ts), `updateProfile`
-- (server/src/api/account.ts), the name that a join gives (server/src/api/invites.ts), the end of an
-- account (server/src/forget.ts) and of abandoned guests (server/src/scheduled.ts).
use opensplit.Prelude.{ℕ, Bool, Option, List, [], ◌∷◌}
use opensplit.Prelude.Text.{Text}
use opensplit.Directory.Tables.{Directory}
use opensplit.Accounts.Profiles.{
  ProfileUpdate, create_profile, update_profile, adopt_name, updated, renamed,
}
use opensplit.Accounts.Profiles.Versions.{
  IsVersioned, write_profile-IsVersioned, create_profile-IsVersioned,
}
use opensplit.Accounts.Forget.{empty_profile, blanked}
use opensplit.Accounts.Guests.{collect_abandoned_guests}
use opensplit.Accounts.Profiles.Renewed.{
  Follows, Follows-refl, Follows-trans, write_profile-Follows, create_profile-Follows,
  collects-Follows, collects-IsVersioned,
}

-- The writes of profiles.
pub data ProfileWrite : Type 0 where
  creates : ℕ → Bool → Option Text → ProfileWrite
  updates : ℕ → ProfileUpdate → ProfileWrite
  adopts : ℕ → Text → ProfileWrite
  empties : ℕ → ProfileWrite
  collects_guests : ProfileWrite

unfoldable pub run_write : ProfileWrite → ℕ → Directory → Directory
unfolding create_profile update_profile adopt_name empty_profile collect_abandoned_guests
run_write (creates profile anonymous name) now d = create_profile profile anonymous name now d
run_write (updates profile update) now d = (update_profile profile update now d).1
run_write (adopts profile name) now d = adopt_name profile name now d
run_write (empties profile) now d = empty_profile profile now d
run_write collects_guests now d = (collect_abandoned_guests now d).1

unfoldable pub run_writes : List (ℕ × ProfileWrite) → Directory → Directory
unfolding run_write
run_writes [] d = d
run_writes ((now, write) ∷ rest) d = run_writes rest (run_write write now d)

run_write-Follows :
    (write : ProfileWrite) (now : ℕ) (d : Directory) → Follows d (run_write write now d)
unfolding run_write update_profile adopt_name empty_profile
run_write-Follows (creates profile anonymous name) now d =
    create_profile-Follows profile anonymous name now d
run_write-Follows (updates profile update) now d =
    write_profile-Follows (updated update) now profile d
run_write-Follows (adopts profile name) now d = write_profile-Follows (renamed name) now profile d
run_write-Follows (empties profile) now d = write_profile-Follows (blanked now) now profile d
run_write-Follows collects_guests now d = collects-Follows now d

run_write-IsVersioned :
    (write : ProfileWrite) (now : ℕ) (d : Directory)
    → IsVersioned d
    → IsVersioned (run_write write now d)
unfolding run_write update_profile adopt_name empty_profile
run_write-IsVersioned (creates profile anonymous name) now d h =
    create_profile-IsVersioned profile anonymous name now d h
run_write-IsVersioned (updates profile update) now d h =
    write_profile-IsVersioned (updated update) now profile d h
run_write-IsVersioned (adopts profile name) now d h =
    write_profile-IsVersioned (renamed name) now profile d h
run_write-IsVersioned (empties profile) now d h =
    write_profile-IsVersioned (blanked now) now profile d h
run_write-IsVersioned collects_guests now d h = collects-IsVersioned now d h

-- Whatever writes of profiles follow, the account that a profile belongs to and its version stay
-- unique, and no profile has a version that the counter has not reached.
pub run_writes-IsVersioned :
    (writes : List (ℕ × ProfileWrite)) (d : Directory)
    → IsVersioned d
    → IsVersioned (run_writes writes d)
unfolding run_writes
run_writes-IsVersioned [] d h = h
run_writes-IsVersioned ((now, write) ∷ rest) d h =
    run_writes-IsVersioned rest (run_write write now d) (run_write-IsVersioned write now d h)

-- A cursor of the profile feed stays good: whatever writes of profiles follow, the profile of each
-- account is as it was, or is gone, or has a version above every version given out before, and the
-- counter has not gone back.
pub run_writes-Follows :
    (writes : List (ℕ × ProfileWrite)) (d : Directory) → Follows d (run_writes writes d)
unfolding run_writes
run_writes-Follows [] d = Follows-refl d
run_writes-Follows ((now, write) ∷ rest) d =
    Follows-trans d _ _ (run_write-Follows write now d)
      (run_writes-Follows rest (run_write write now d))
