-- ===== src/Pull.antt =====
-- server/src/api/ledger.ts, the route `pull`: every group that the account is in, and a page or a
-- refusal for each group asked for.
pub mod Profiles
pub mod Shown
pub mod Gathered
pub mod Answered
use opensplit.Prelude.{
  ℕ, Bool, true, false, ◌&&◌, Option, none, some, List, [], ◌∷◌, ◌++◌, map, rows_where, find_row,
  any_row, ◌+◌, is_none, ◌==◌, if◌then◌else◌,
}
use opensplit.Chunked.{chunked, default_size}
use opensplit.Chunked.Pieces.{flat}
use opensplit.Group.Schema.{MemberRow}
use opensplit.Group.Refusal.{RefusalCode, Result, ok, err}
use opensplit.Group.Action.{Reply, answered, crashed, attempt}
use opensplit.Group.Upkeep.{in_array}
use opensplit.Group.Changes.{GroupChanges, changes_since}
use opensplit.Directory.Tables.{Directory, ProfileRow, MembershipRow}
use opensplit.Accounts.Profiles.{is_current_place}
use opensplit.Accounts.Forget.{System}

pub record GroupCursor : Type 0 where
  pub group_id : ℕ
  pub since : ℕ

pub record GroupRefusal : Type 0 where
  pub group_id : ℕ
  pub code : RefusalCode

-- A page with the profiles of its current members.
pub record ChangePage : Type 0 where
  pub page : GroupChanges
  pub profiles : List ProfileRow

pub record Pull : Type 0 where
  pub group_ids : List ℕ
  pub pages : List ChangePage
  pub refusals : List GroupRefusal

-- `groupsOf`: groups the account actively participates in.
unfoldable pub groups_in : ℕ → Directory → List ℕ
groups_in profile d =
    map (λ (m : MembershipRow). m.group_id) (rows_where (is_current_place profile) d.memberships)

-- A `Set`'s elements in the order they entered it.
unfoldable pub distinct_first : List ℕ → List ℕ → List ℕ
distinct_first seen [] = []
distinct_first seen (n ∷ ns) = elim (in_array n seen) [
  | true ↦ distinct_first seen ns
  | false ↦ n ∷ distinct_first (n ∷ seen) ns
]

abbrev pub current_account : Option ℕ → Option ℕ → List ℕ
current_account (some profile) none = profile ∷ []
current_account _ _ = []

unfoldable pub accounts_of : List MemberRow → List ℕ
accounts_of [] = []
accounts_of (m ∷ ms) = current_account m.profile_id m.left_at ++ accounts_of ms

-- `currentProfiles`: the accounts holding current places.
unfoldable pub current_profiles : List MemberRow → List ℕ
unfolding distinct_first accounts_of
current_profiles members = distinct_first [] (accounts_of members)

-- The calls of a pull that fail: the read of the account's groups, calls of objects by their place
-- among those asked for, and reads of profiles by the ids that they bind.
pub record Faults : Type 0 where
  pub groups : Bool
  pub objects : ℕ → Bool
  pub profiles : List ℕ → Bool

-- `profilesOf`: the profiles of all members, read in statements that each bind so many ids. One
-- that fails fails them all.
unfoldable pub profiles_of : Faults → Directory → List MemberRow → Option (List ProfileRow)
unfolding current_profiles
profiles_of faults d members =
    let pieces = chunked (current_profiles members) default_size in
    if any_row faults.profiles pieces
    then none
    else some
        (flat (map (λ ids. rows_where (λ (p : ProfileRow). in_array p.id ids) d.profiles) pieces))

abbrev pub found : Option ProfileRow → List ProfileRow
found none = []
found (some p) = p ∷ []

-- `flatMap((id) => profilesById.get(id) ?? [])`; ids are unique among the profiles.
unfoldable pub look_up : List ProfileRow → List ℕ → List ProfileRow
look_up profiles [] = []
look_up profiles (id ∷ ids) = found (find_row (λ p. p.id == id) profiles) ++ look_up profiles ids

-- What has been read: pages, and refusals.
pub record Results : Type 0 where
  pub pages : List GroupChanges
  pub refused : List GroupRefusal

-- What one call adds, which is an exception if it failed.
abbrev pub add_result : Bool → ℕ → Reply GroupChanges → Option Results → Option Results
add_result true g reply r = none
add_result false g (answered (ok page)) (some r) = some (record r { pages = page ∷ r.pages })
add_result false g (answered (err code)) (some r) =
    some (record r { refused = record { group_id = g; code = code } ∷ r.refused })
add_result false g (crashed c) (some r) = none
add_result false g reply none = none

-- Each group asked for, past its own cursor, from a place in the list on. `none`: an exception,
-- which fails the whole pull.
unfoldable pub read_groups : Faults → ℕ → ℕ → System → ℕ → List GroupCursor → Option Results
read_groups faults viewer limit w n [] = some (record { pages = []; refused = [] })
read_groups faults viewer limit w n (g ∷ gs) =
    add_result (faults.objects n) g.group_id
      (attempt (changes_since viewer g.since limit) (w.groups g.group_id)).0
      (read_groups faults viewer limit w (n + 1) gs)

unfoldable pub members_of : List GroupChanges → List MemberRow
members_of [] = []
members_of (page ∷ pages) = page.members ++ members_of pages

unfoldable pub with_profiles : List ProfileRow → GroupChanges → ChangePage
unfolding look_up current_profiles
with_profiles profiles page = record {
  page = page;
  profiles = look_up profiles (current_profiles page.members);
}

abbrev pub assembled : Bool → List ℕ → Results → Option (List ProfileRow) → Option Pull
assembled true group_ids r profiles = none
assembled false group_ids r none = none
assembled false group_ids r (some profiles) = some (record {
  group_ids = group_ids;
  pages = map (with_profiles profiles) r.pages;
  refusals = r.refused;
})

abbrev pub pulled : Faults → ℕ → System → Option Results → Option Pull
pulled faults viewer w none = none
pulled faults viewer w (some r) =
    assembled faults.groups (groups_in viewer w.d1) r (profiles_of faults w.d1 (members_of r.pages))

unfoldable pub pull : Faults → ℕ → List GroupCursor → ℕ → System → Option Pull
unfolding groups_in profiles_of read_groups members_of with_profiles
pull faults viewer groups limit w =
    pulled faults viewer w (read_groups faults viewer limit w 0 groups)
