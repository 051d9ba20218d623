-- ===== src/Accounts/Profiles.antt =====
-- Profiles in D1, every write of them numbered: server/src/db/d1/profile-version.ts, the profile
-- routes of server/src/api/account.ts, `createProfile` of server/src/auth.ts.
pub mod Versions
pub mod Feed
pub mod Renewed
pub mod History
use opensplit.Prelude.{
  ℕ, ◌+◌, ltb, Bool, true, false, ◌&&◌, ◌||◌, not, Option, none, some, List, [], ◌∷◌, ◌++◌, any_row,
  find_row, rows_where, update_where, is_none, or_else, take, length, sort_by, ◌==◌, if◌then◌else◌,
}
use opensplit.Prelude.Text.{Text, trim}
use opensplit.Prelude.Sorting.{last_key}
use opensplit.Group.Schema.{AvatarKind}
use opensplit.Directory.Tables.{Directory, ProfileRow, MembershipRow, Avatar}

-- `insert into counters … on conflict do update set value = value + 1`
unfoldable pub next_profile_version : Directory → Directory
next_profile_version d = record d { counter = some (or_else d.counter 0 + 1) }

-- `(select value from counters where name = 'profiles')`
unfoldable pub profile_version : Directory → ℕ
profile_version d = or_else d.counter 0

-- One batch: the next version, and an update of the profile of one account that sets it.
unfoldable pub write_profile : ℕ → (ProfileRow → ProfileRow) → ℕ → Directory → Directory
unfolding next_profile_version profile_version
write_profile profile change now d =
    let e = next_profile_version d in
    record e {
      profiles =
          update_where (λ p. p.id == profile)
            (λ p. record (change p) { id = p.id; updated_at = now; version = profile_version e })
            e.profiles;
    }

-- `user.isAnonymous ? null : user.name?.trim() || null`, of an account with a name or none.
unfoldable pub chosen_name : Bool → Option Text → Option Text
chosen_name true name = none
chosen_name false none = none
chosen_name false (some name) = elim (trim name) [ [] ↦ none | c ∷ t ↦ some (c ∷ t) ]

abbrev pub default_avatar : Avatar
default_avatar = record {
  avatar_kind = AvatarKind.initials;
  avatar_color = none;
  avatar_emoji = none;
  avatar_icon = none;
  avatar_photo = none;
}

-- `createProfile`: an account that has a profile keeps it.
unfoldable pub create_profile : ℕ → Bool → Option Text → ℕ → Directory → Directory
unfolding next_profile_version profile_version chosen_name
create_profile profile is_anonymous name now d =
    let e = next_profile_version d in
    let row : ProfileRow = record {
      id = profile;
      display_name = chosen_name is_anonymous name;
      upi_vpa = none;
      avatar = default_avatar;
      updated_at = now;
      deleted_at = none;
      version = profile_version e;
    } in
    if any_row (λ p. p.id == profile) e.profiles
    then e
    else record e { profiles = e.profiles ++ row ∷ [] }

pub record ProfileUpdate : Type 0 where
  pub display_name : Option Text
  pub upi_vpa : Option Text
  pub avatar : Avatar

abbrev pub updated : ProfileUpdate → ProfileRow → ProfileRow
updated update p = record p {
  display_name = update.display_name;
  upi_vpa = update.upi_vpa;
  avatar = update.avatar;
}

-- `updateProfile`: the row as stored; `none` is the exception for an account without a profile.
unfoldable pub update_profile : ℕ → ProfileUpdate → ℕ → Directory → Option ProfileRow × Directory
unfolding write_profile
update_profile self update now d =
    let e = write_profile self (updated update) now d in
    (find_row (λ p. p.id == self) e.profiles, e)

abbrev pub renamed : Text → ProfileRow → ProfileRow
renamed name p = record p { display_name = some name }

-- The name that a join gives to an account that has none.
unfoldable pub adopt_name : ℕ → Text → ℕ → Directory → Directory
unfolding write_profile
adopt_name viewer name now d = write_profile viewer (renamed name) now d

abbrev pub is_current_place : ℕ → MembershipRow → Bool
is_current_place profile m = m.profile_id == profile && is_none m.left_at

-- `groupsOf` and `mine`: whether the account is in a group now.
unfoldable pub is_in : Directory → ℕ → ℕ → Bool
is_in d profile group =
    any_row (λ m. is_current_place profile m && m.group_id == group) d.memberships

-- `visibleTo`: yourself, and everybody currently in a group with you.
unfoldable pub visible_to : Directory → ℕ → ℕ → Bool
unfolding is_in
visible_to d self profile =
    profile == self
    || any_row (λ m. is_current_place profile m && is_in d self m.group_id) d.memberships

pub record ProfilePage : Type 0 where
  pub profiles : List ProfileRow
  pub seq : ℕ
  pub has_more : Bool

abbrev pub is_newer : Directory → ℕ → ℕ → ProfileRow → Bool
is_newer d self since p = visible_to d self p.id && ltb since p.version

-- `getProfiles`
unfoldable pub profile_feed : ℕ → ℕ → ℕ → Directory → ProfilePage
unfolding visible_to
profile_feed self since limit d =
    let rows =
      take (limit + 1) (sort_by (λ p. p.version) (rows_where (is_newer d self since) d.profiles)) in
    let page = take limit rows in
    record {
      profiles = page;
      seq = last_key (λ (p : ProfileRow). p.version) since page;
      has_more = ltb limit (length rows);
    }
