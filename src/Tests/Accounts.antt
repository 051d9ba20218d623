-- ===== src/Tests/Accounts.antt =====
-- Accounts 77 and 78, their profiles and devices, and a group that account 77 leaves as it is
-- deleted.
use opensplit.Prelude.{
  not, ℕ, ◌≡◌, refl, arith, true, false, ◌&&◌, Bool-cases, inl, inr, none, some, List, [], ◌∷◌,
  ◌==◌, if◌then◌else◌,
}
use opensplit.Group.Object.{fresh_db}
use opensplit.Group.Store.{distinct_profiles}
use opensplit.Directory.Tables.{Directory, ProfileRow, Platform, MembershipRow}
use opensplit.Directory.Apply.View.{place_of}
use opensplit.Accounts.Profiles.{default_avatar, profile_version, profile_feed}
use opensplit.Accounts.Profiles.Versions.{IsVersioned}
use opensplit.Accounts.Profiles.Feed.{IsFeedPage, profile_feed-IsFeedPage}
use opensplit.Accounts.Profiles.Renewed.{Follows}
use opensplit.Accounts.Profiles.History.{
  ProfileWrite, creates, adopts, empties, collects_guests, run_writes, run_writes-IsVersioned,
  run_writes-Follows,
}
use opensplit.Accounts.Devices.{register_device, forget_device}
use opensplit.Accounts.Devices.Owner.{owner, is_owner, owner_lem}
use opensplit.Accounts.Forget.{System, Session, delete_account}
use opensplit.Accounts.Forget.TakenOut.{Sound}
use opensplit.Accounts.Forget.Calls.{holds_place}
use opensplit.Accounts.Forget.Over.{Indexed, IsAnswered, delete_account-IsAnswered}
use opensplit.Accounts.Guests.{collect_abandoned_guests}
use opensplit.Accounts.Guests.Abandoned.{IsSwept, collect_abandoned_guests-IsSwept}
use opensplit.Pull.{Faults, GroupCursor}
use opensplit.Tests.{dined}

abbrev profile : ℕ → ℕ → ProfileRow
profile id version = record {
  id = id;
  display_name = none;
  upi_vpa = none;
  avatar = default_avatar;
  updated_at = 1000;
  deleted_at = none;
  version = version;
}

abbrev place : ℕ → MembershipRow
place id = record { profile_id = id; group_id = 1; left_at = none; updated_at = 1000; version = 3 }

abbrev pub people : Directory
people = record {
  users =
      record { id = 77; email = []; created_at = 900; is_anonymous = false }
      ∷ record { id = 78; email = []; created_at = 900; is_anonymous = true }
      ∷ [];
  sessions = record { token = 600; user_id = 77; updated_at = 1000 } ∷ [];
  profiles = profile 77 5 ∷ profile 78 4 ∷ [];
  counter = some 5;
  memberships = place 77 ∷ place 78 ∷ [];
  devices =
      record { token = 700; profile_id = 78; platform = Platform.android; updated_at = 1000 } ∷ [];
  link_tokens = [];
  purged = [];
}

people-IsVersioned : IsVersioned people
unfolding profile_version
people-IsVersioned = record {
  ids = (refl, (refl, tt));
  versions = (refl, (refl, tt));
  numbered = (omega arith, (omega arith, tt));
}

profile_feed-IsFeedPage_example : IsFeedPage people 77 0 (profile_feed 77 0 1 people)
profile_feed-IsFeedPage_example =
    profile_feed-IsFeedPage 77 0 1 people (omega arith) people-IsVersioned

abbrev writes : List (ℕ × ProfileWrite)
writes =
    (2000, creates 79 true none)
    ∷ (2100, adopts 79 (b'C' ∷ []))
    ∷ (2200, empties 77)
    ∷ (2300, collects_guests)
    ∷ []

run_writes-IsVersioned_example : IsVersioned (run_writes writes people)
run_writes-IsVersioned_example = run_writes-IsVersioned writes people people-IsVersioned

run_writes-Follows_example : Follows people (run_writes writes people)
run_writes-Follows_example = run_writes-Follows writes people

-- Account 77 has taken over the phone of account 78.
owner_example :
    (owner (register_device 700 Platform.android 77 2000 people) 700
      ≡ (if 700 == 700 then some 77 else owner people 700))
    × ((forget_device 700 77 people).0 ≡ is_owner (owner people 700) 77)
    × (owner (forget_device 700 77 people).1 700
        ≡ (if (700 == 700) && is_owner (owner people 700) 77 then none else owner people 700))
owner_example = owner_lem people 700 700 77 2000 Platform.android (refl, tt)

abbrev system : System
system = record {
  d1 = people;
  groups = λ h. if h == 1 then dined else fresh_db (λ n. n);
  alarms = λ h. none;
  answers = [];
}

abbrev pub session : Session
session = record { user_id = 77; is_anonymous = false; created_at = 900000 }

dined-Sound : Sound dined
unfolding distinct_profiles
dined-Sound = record { profiles = refl; empty = refl }

-- Group 1 alone holds the account.
only_there : (h : ℕ) → holds_place 77 system h ≡ true → h ≡ 1
unfolding fresh_db
only_there h c = elim (Bool-cases (h == 1)) [
  | inl hit ↦ ground arith
  | inr miss ↦ nowhere (rw miss at c)
]
  where
    nowhere : false ≡ true → h ≡ 1
    nowhere e = cc

system-Indexed : Indexed 77 system
unfolding place_of
system-Indexed = record {
  named = λ h c. let there = only_there h c in rw there refl;
  sound = λ h c. let there = only_there h c in rw there dined-Sound;
}

delete_account-IsAnswered_example :
    IsAnswered session 1000000 system (delete_account session 1000000 10 system)
delete_account-IsAnswered_example =
    delete_account-IsAnswered session 1000000 10 system system-Indexed

collect_abandoned_guests-IsSwept_example :
    IsSwept 8000000000 people (collect_abandoned_guests 8000000000 people)
collect_abandoned_guests-IsSwept_example = collect_abandoned_guests-IsSwept 8000000000 people

-- Group 1 is there to read, group 2 is not.
abbrev asked : List GroupCursor
asked = record { group_id = 1; since = 0 } ∷ record { group_id = 2; since = 0 } ∷ []

-- Reads of profiles fail, but of account 77 alone.
abbrev flaky : Faults
flaky = record {
  groups = false;
  objects = λ n. false;
  profiles = λ ids. elim ids [ [] ↦ true | n ∷ ns ↦ not (n == 77) ];
}
