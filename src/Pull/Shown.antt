-- ===== src/Pull/Shown.antt =====
-- server/src/api/ledger.ts, `pull`: which profiles a page shows.
use opensplit.Prelude.{
  ℕ, ◌≡◌, refl, ap, ◌∙◌, Bool, true, false, ◌&&◌, ◌||◌, Option, none, some, List, [], ◌∷◌, ◌++◌,
  any_row, is_none, Bool-cases, inl, inr, arith, ◌==◌, if◌then◌else◌,
}
use opensplit.Group.Schema.{MemberRow}
use opensplit.Group.Upkeep.{in_array}
use opensplit.Directory.Tables.{ProfileRow}
use opensplit.Pull.{distinct_first, current_account, accounts_of, current_profiles, look_up, found}
use opensplit.Pull.Profiles.{profile_at, or_in, find-append, current-accounts}

abbrev belongs_to : Option ℕ → ℕ → Bool
belongs_to none x = false
belongs_to (some y) x = y == x

-- Whether an account holds a place, among these, that nobody has left.
abbrev pub is_shown : ℕ → List MemberRow → Bool
is_shown x members = any_row (λ m. belongs_to m.profile_id x && is_none m.left_at) members

-- No account has two of the profiles.
abbrev pub Once : List ProfileRow → Type 0
Once [] = Unit
Once (p ∷ ps) = (any_row (λ q. q.id == p.id) ps ≡ false) × Once ps

-- Each account that holds a place has its profile there, as D1 has it, and nobody else has one.
pub record Shows (stored : List ProfileRow) (members : List MemberRow) (ps : List ProfileRow)
    : Type 0 where
  pub each : (x : ℕ) → profile_at x ps ≡ (if is_shown x members then profile_at x stored else none)
  pub once : Once ps

in_array-accounts_of :
    (x : ℕ) (members : List MemberRow) → in_array x (accounts_of members) ≡ is_shown x members
unfolding accounts_of
in_array-accounts_of x [] = refl
in_array-accounts_of x (m ∷ ms) = one (in_array-accounts_of x ms) m.profile_id m.left_at
  where
    one :
        in_array x (accounts_of ms) ≡ is_shown x ms
        → (p l : Option ℕ)
        → in_array x (current_account p l ++ accounts_of ms)
          ≡ belongs_to p x && is_none l || is_shown x ms
    one ih none none = ih
    one ih none (some l) = ih
    one ih (some p) none = ground (arith, ih)
    one ih (some p) (some l) = ih ∙ ground arith

pub in_array-current_profiles :
    (x : ℕ) (members : List MemberRow) → in_array x (current_profiles members) ≡ is_shown x members
in_array-current_profiles x members = current-accounts x members ∙ in_array-accounts_of x members

found_id :
    (x id : ℕ) (ps : List ProfileRow)
    → profile_at x (found (profile_at id ps)) ≡ (if x == id then profile_at id ps else none)
found_id x id [] = ground arith
found_id x id (p ∷ ps) = ground (arith, found_id x id ps)

twice : (o : Option ProfileRow) (b : Bool) → or_in o (if b then o else none) ≡ o
twice none b = ground arith
twice (some p) b = refl

find-look_up :
    (x : ℕ) (ps : List ProfileRow) (ids : List ℕ)
    → profile_at x (look_up ps ids) ≡ (if in_array x ids then profile_at x ps else none)
unfolding look_up
find-look_up x ps [] = refl
find-look_up x ps (id ∷ ids) =
    find-append x (found (profile_at id ps)) (look_up ps ids)
    ∙ rw (found_id x id ps, find-look_up x ps ids)
        (elim (Bool-cases (x == id)) [
          | inl hit ↦
              let same_id : x ≡ id = ground arith in
              rw (hit, same_id) (twice (profile_at id ps) (in_array id ids))
          | inr miss ↦ rw miss (refl)
        ])

abbrev NoRepeat : List ℕ → Type 0
NoRepeat [] = Unit
NoRepeat (n ∷ ns) = (in_array n ns ≡ false) × NoRepeat ns

seen-distinct_first :
    (x : ℕ) (seen ns : List ℕ)
    → in_array x seen ≡ true
    → in_array x (distinct_first seen ns) ≡ false
unfolding distinct_first
seen-distinct_first x seen [] h = refl
seen-distinct_first x seen (n ∷ ns) h = elim (Bool-cases (in_array n seen)) [
  | inl old ↦ rw (old, distinct_first) (seen-distinct_first x seen ns h)
  | inr new ↦ elim (Bool-cases (x == n)) [
    | inl hit ↦ clash (let same : x ≡ n = ground arith in ap (λ y. in_array y seen) same) new
    | inr miss ↦ rw (new, miss, distinct_first) (seen-distinct_first x (n ∷ seen) ns (ground arith))
  ]
]
  where
    clash :
        in_array x seen ≡ in_array n seen
        → in_array n seen ≡ false
        → in_array x (distinct_first seen (n ∷ ns)) ≡ false
    clash e f = cc

distinct_first-NoRepeat : (seen ns : List ℕ) → NoRepeat (distinct_first seen ns)
unfolding distinct_first
distinct_first-NoRepeat seen [] = tt
distinct_first-NoRepeat seen (n ∷ ns) = elim (Bool-cases (in_array n seen)) [
  | inl old ↦ rw (old, distinct_first) (distinct_first-NoRepeat seen ns)
  | inr new ↦
      rw (new, distinct_first)
        (seen-distinct_first n (n ∷ seen) ns (ground arith), distinct_first-NoRepeat (n ∷ seen) ns)
]

absent-look_up :
    (x : ℕ) (ps : List ProfileRow) (ids : List ℕ)
    → in_array x ids ≡ false
    → any_row (λ q. q.id == x) (look_up ps ids) ≡ false
absent-look_up x ps ids h = unlisted (look_up ps ids) (find-look_up x ps ids ∙ rw h refl)
  where
    unlisted : (qs : List ProfileRow) → profile_at x qs ≡ none → any_row (λ q. q.id == x) qs ≡ false
    unlisted [] e = refl
    unlisted (q ∷ qs) e = ground (arith, unlisted qs)

Once-found :
    (id : ℕ) (ps qs : List ProfileRow)
    → any_row (λ q. q.id == id) qs ≡ false
    → Once qs
    → Once (found (profile_at id ps) ++ qs)
Once-found id [] qs h o = o
Once-found id (p ∷ ps) qs h o = elim (Bool-cases (p.id == id)) [
  | inl hit ↦ let same_id : p.id ≡ id = ground arith in rw hit (rw same_id h, o)
  | inr miss ↦ rw miss (Once-found id ps qs h o)
]

Once-look_up : (ps : List ProfileRow) (ids : List ℕ) → NoRepeat ids → Once (look_up ps ids)
unfolding look_up
Once-look_up ps [] n = tt
Once-look_up ps (id ∷ ids) n =
    Once-found id ps (look_up ps ids) (absent-look_up id ps ids n.0) (Once-look_up ps ids n.1)

-- Looking up the current profiles of members shows them, in any list that has their profiles.
pub look_up-Shows :
    (stored ps : List ProfileRow) (members : List MemberRow)
    → ((x : ℕ) → is_shown x members ≡ true → profile_at x ps ≡ profile_at x stored)
    → Shows stored members (look_up ps (current_profiles members))
look_up-Shows stored ps members h = record {
  each = λ x.
      find-look_up x ps (current_profiles members)
      ∙ rw (in_array-current_profiles x members) (elim (Bool-cases (is_shown x members)) [
        | inl shown ↦ rw shown (h x shown)
        | inr not ↦ rw not refl
      ]);
  once =
      Once-look_up ps (current_profiles members)
        (unfold current_profiles in distinct_first-NoRepeat [] (accounts_of members));
}

pub shown-append :
    (x : ℕ) (ms ns : List MemberRow) → is_shown x (ms ++ ns) ≡ is_shown x ms || is_shown x ns
shown-append x [] ns = refl
shown-append x (m ∷ ms) ns = ground (arith, shown-append x ms ns)
