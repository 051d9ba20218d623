-- ===== src/Pull/Gathered.antt =====
-- server/src/api/ledger.ts, `pull`: what is read of the groups asked for, and the pages made of it.
use opensplit.Prelude.{
  ℕ, ◌+◌, ◌≡◌, refl, sym, ◌∙◌, Bool, true, false, ◌||◌, Option, none, some, List, [], ◌∷◌, map,
  any_row, arith,
}
use opensplit.Group.Schema.{MemberRow}
use opensplit.Group.Tables.{Db}
use opensplit.Group.Refusal.{RefusalCode}
use opensplit.Group.Action.{
  Outcome, done, thrown, refused, broken, attempt, settled, pure, gets, or_refuse, refuse_if, ◌>>=◌,
}
use opensplit.Group.Changes.{GroupChanges, changes_since}
use opensplit.Directory.Tables.{ProfileRow}
use opensplit.Accounts.Forget.{System}
use opensplit.Pull.{
  Faults, GroupCursor, GroupRefusal, ChangePage, Results, add_result, read_groups, members_of,
  with_profiles,
}
use opensplit.Pull.Profiles.{profile_at}
use opensplit.Pull.Shown.{Shows, is_shown, look_up-Shows, shown-append}

-- Each group asked for is answered once, in the order asked: by its page, which shows the profiles
-- of the accounts that are in the group, or by its refusal.
pub data Answers (viewer limit : ℕ) (w : System)
    : List GroupCursor → List ChangePage → List GroupRefusal → Type 0 where
  nothing_asked : Answers viewer limit w [] [] []
  page_read :
      {g : GroupCursor} {gs : List GroupCursor} {pages : List ChangePage}
      {refusals : List GroupRefusal} {shown : ChangePage} {s : Db}
      → changes_since viewer g.since limit (w.groups g.group_id) ≡ done shown.page s
      → Shows w.d1.profiles shown.page.members shown.profiles
      → Answers viewer limit w gs pages refusals
      → Answers viewer limit w (g ∷ gs) (shown ∷ pages) refusals
  page_refused :
      {g : GroupCursor} {gs : List GroupCursor} {pages : List ChangePage}
      {refusals : List GroupRefusal} {code : RefusalCode}
      → changes_since viewer g.since limit (w.groups g.group_id) ≡ thrown (refused code)
      → Answers viewer limit w gs pages refusals
      → Answers viewer limit w
          (g ∷ gs)
          pages
          (record { group_id = g.group_id; code = code } ∷ refusals)

abbrev Unbroken : {A : Type 0} → Outcome A → Type 0
Unbroken (done a t) = Unit
Unbroken (thrown (refused code)) = Unit
Unbroken (thrown (broken c)) = ⊥

-- Reading changes breaks no constraint.
changes_since-Unbroken :
    (viewer since limit : ℕ) (s : Db) → Unbroken (changes_since viewer since limit s)
unfolding changes_since pure gets or_refuse refuse_if ◌>>=◌
changes_since-Unbroken viewer since limit s = ground arith

or_true : (a : Bool) → a || true ≡ true
or_true a = ground arith

-- Whether a call of an object fails, of those from a place in the list on.
abbrev pub any_object : Faults → ℕ → List GroupCursor → Bool
any_object faults n [] = false
any_object faults n (g ∷ gs) = faults.objects n || any_object faults (n + 1) gs

-- What was read of the groups asked for, before the profiles.
pub data Read (viewer limit : ℕ) (w : System)
    : List GroupCursor → List GroupChanges → List GroupRefusal → Type 0 where
  nothing : Read viewer limit w [] [] []
  one_page :
      {g : GroupCursor} {gs : List GroupCursor} {pages : List GroupChanges}
      {refusals : List GroupRefusal} {page : GroupChanges} {s : Db}
      → changes_since viewer g.since limit (w.groups g.group_id) ≡ done page s
      → Read viewer limit w gs pages refusals
      → Read viewer limit w (g ∷ gs) (page ∷ pages) refusals
  one_refusal :
      {g : GroupCursor} {gs : List GroupCursor} {pages : List GroupChanges}
      {refusals : List GroupRefusal} {code : RefusalCode}
      → changes_since viewer g.since limit (w.groups g.group_id) ≡ thrown (refused code)
      → Read viewer limit w gs pages refusals
      → Read viewer limit w
          (g ∷ gs)
          pages
          (record { group_id = g.group_id; code = code } ∷ refusals)

module _ (faults : Faults) (viewer limit : ℕ) (w : System) where
  -- Nothing is read if a call fails, and everything if none does.
  abbrev pub Gathered : ℕ → List GroupCursor → Option Results → Type 0
  Gathered n gs none = any_object faults n gs ≡ true
  Gathered n gs (some r) =
      (any_object faults n gs ≡ false) × Read viewer limit w gs r.pages r.refused

  add_result-Gathered :
      (n : ℕ) (failed : Bool) (g : GroupCursor) (gs : List GroupCursor) (o : Outcome GroupChanges)
      (rest : Option Results)
      → changes_since viewer g.since limit (w.groups g.group_id) ≡ o
      → Unbroken o
      → faults.objects n ≡ failed
      → Gathered (n + 1) gs rest
      → Gathered n (g ∷ gs) (add_result failed g.group_id (settled (w.groups g.group_id) o).0 rest)
  add_result-Gathered n true g gs o rest e u f k = rw f refl
  add_result-Gathered n false g gs (done page s) (some r) e u f (k, read) =
      (rw f k, one_page e read)
  add_result-Gathered n false g gs (thrown (refused code)) (some r) e u f (k, read) =
      (rw f k, one_refusal e read)
  add_result-Gathered n false g gs (thrown (broken c)) rest e u f k = absurd u
  add_result-Gathered n false g gs (done page s) none e u f k = rw f k
  add_result-Gathered n false g gs (thrown (refused code)) none e u f k = rw f k

  pub read_groups-Gathered :
      (n : ℕ) (gs : List GroupCursor) → Gathered n gs (read_groups faults viewer limit w n gs)
  unfolding read_groups attempt
  read_groups-Gathered n [] = (refl, nothing)
  read_groups-Gathered n (g ∷ gs) =
      add_result-Gathered n (faults.objects n) g gs _ _ refl
        (changes_since-Unbroken viewer g.since limit (w.groups g.group_id)) refl
        (read_groups-Gathered (n + 1) gs)

  -- With profiles that serve each member read, the pages show what they are to show.
  pub shown_pages :
      (ps : List ProfileRow) (all : List MemberRow) (gs : List GroupCursor)
      (pages : List GroupChanges) (refusals : List GroupRefusal)
      → ((x : ℕ) → is_shown x all ≡ true → profile_at x ps ≡ profile_at x w.d1.profiles)
      → ((x : ℕ) → is_shown x (members_of pages) ≡ true → is_shown x all ≡ true)
      → Read viewer limit w gs pages refusals
      → Answers viewer limit w gs (map (with_profiles ps) pages) refusals
  unfolding members_of with_profiles
  shown_pages ps all _ _ _ serves within nothing = nothing_asked
  shown_pages ps all (g ∷ gs) (page ∷ pages) refusals serves within (one_page e read) =
      page_read e
        (look_up-Shows w.d1.profiles ps page.members (λ x here.
          serves x (within x (shown-append x page.members (members_of pages) ∙ rw here refl))))
        (shown_pages ps all gs pages refusals serves
          (λ x there.
            within x (shown-append x page.members (members_of pages) ∙ rw there (or_true _)))
          read)
  shown_pages ps all (g ∷ gs) pages (r ∷ refusals) serves within (one_refusal e read) =
      page_refused e (shown_pages ps all gs pages refusals serves within read)

-- Whether an account is shown on a page.
abbrev pub is_shown_on : ℕ → List ChangePage → Bool
is_shown_on x pages = any_row (λ c. is_shown x c.page.members) pages

pub shown-with_profiles :
    (x : ℕ) (ps : List ProfileRow) (pages : List GroupChanges)
    → is_shown_on x (map (with_profiles ps) pages) ≡ is_shown x (members_of pages)
unfolding members_of with_profiles
shown-with_profiles x ps [] = refl
shown-with_profiles x ps (page ∷ pages) =
    rw (shown-with_profiles x ps pages) (sym (shown-append x page.members (members_of pages)))
