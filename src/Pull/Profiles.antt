-- ===== src/Pull/Profiles.antt =====
-- server/src/api/ledger.ts, `profilesOf`: reading every profile once, in pieces, gives each page what
-- looking its members up one by one would.
use opensplit.Prelude.{
  ℕ, ◌≡◌, refl, sym, ap, ◌∙◌, Bool, true, false, ◌||◌, Option, none, some, List, [], ◌∷◌, ◌++◌, map,
  rows_where, find_row, any_row, Bool-cases, inl, inr, arith, ◌==◌, if◌then◌else◌,
}
use opensplit.Chunked.{chunked, default_size}
use opensplit.Chunked.Pieces.{flat, chunked-pieces}
use opensplit.Group.Schema.{MemberRow}
use opensplit.Group.Upkeep.{in_array}
use opensplit.Directory.Tables.{Directory, ProfileRow}
use opensplit.Pull.{
  Faults, distinct_first, current_account, accounts_of, current_profiles, profiles_of,
}

abbrev pub profile_at : ℕ → List ProfileRow → Option ProfileRow
profile_at id ps = find_row (λ p. p.id == id) ps

abbrev pub or_in : Option ProfileRow → Option ProfileRow → Option ProfileRow
or_in none o = o
or_in (some p) o = some p

pub find-append :
    (id : ℕ) (ps qs : List ProfileRow)
    → profile_at id (ps ++ qs) ≡ or_in (profile_at id ps) (profile_at id qs)
find-append id [] qs = refl
find-append id (p ∷ ps) qs = ground (arith, find-append id ps qs)

find-chosen :
    (id : ℕ) (ids : List ℕ) (ps : List ProfileRow)
    → profile_at id (rows_where (λ p. in_array p.id ids) ps)
      ≡ (if in_array id ids then profile_at id ps else none)
find-chosen id ids [] = ground arith
find-chosen id ids (p ∷ ps) = elim (Bool-cases (p.id == id)) [
  | inl hit ↦
      let same_id : p.id ≡ id = ground arith in
      elim (Bool-cases (in_array id ids)) [
        | inl chosen ↦ rw (same_id, chosen) (ground arith)
        | inr not ↦ rw (same_id, not) (find-chosen id ids ps ∙ rw not refl)
      ]
  | inr miss ↦ ground (arith, find-chosen id ids ps)
]

in_array-append : (x : ℕ) (xs ys : List ℕ) → in_array x (xs ++ ys) ≡ in_array x xs || in_array x ys
in_array-append x [] ys = refl
in_array-append x (y ∷ xs) ys = ground (arith, in_array-append x xs ys)

or_in_same :
    (a b : Bool) (o : Option ProfileRow)
    → or_in (if a then o else none) (if b then o else none) ≡ (if a || b then o else none)
or_in_same a b none = ground arith
or_in_same a b (some p) = ground arith

find-pieces :
    (id : ℕ) (pieces : List (List ℕ)) (ps : List ProfileRow)
    → profile_at id
        (flat (map (λ ids. rows_where (λ (p : ProfileRow). in_array p.id ids) ps) pieces))
      ≡ (if in_array id (flat pieces) then profile_at id ps else none)
find-pieces id [] ps = refl
find-pieces id (ids ∷ pieces) ps =
    find-append id (rows_where (λ p. in_array p.id ids) ps) _
    ∙ rw (find-chosen id ids ps, find-pieces id pieces ps, in_array-append id ids (flat pieces))
        (or_in_same (in_array id ids) (in_array id (flat pieces)) (profile_at id ps))

some_injective : {A : Type 0} {x y : A} → some x ≡ some y → x ≡ y
some_injective e = cc

-- One lookup in what was read.
pub find-profiles_of :
    (faults : Faults) (id : ℕ) (d : Directory) (members : List MemberRow) (ps : List ProfileRow)
    → profiles_of faults d members ≡ some ps
    → profile_at id ps
      ≡ (if in_array id (current_profiles members) then profile_at id d.profiles else none)
unfolding profiles_of
find-profiles_of faults id d members ps e =
    let ids = current_profiles members in
    let pieces = chunked ids default_size in
    elim (Bool-cases (any_row faults.profiles pieces)) [
      | inl failed ↦ let n = rw failed at e in cc
      | inr read ↦
          let all = rw read at e in
          rw (sym (some_injective all)) (
            find-pieces id pieces d.profiles
            ∙ ap (λ xs. if in_array id xs then profile_at id d.profiles else none)
                (chunked-pieces ids default_size (omega arith)).0)
    ]

-- A read that did not fail and that binds the id of an account.
pub record ReadFor (faults : Faults) (x : ℕ) : Type 0 where
  pub ids : List ℕ
  pub binds : in_array x ids ≡ true
  pub fine : faults.profiles ids ≡ false

piece_of :
    (faults : Faults) (x : ℕ) (pieces : List (List ℕ))
    → any_row faults.profiles pieces ≡ false
    → in_array x (flat pieces) ≡ true
    → ReadFor faults x
piece_of faults x [] f h = cc
piece_of faults x (ids ∷ pieces) f h = elim (Bool-cases (in_array x ids)) [
  | inl here ↦ record { ids = ids; binds = here; fine = ground arith }
  | inr not ↦
      let rest : in_array x (flat pieces) ≡ true =
        let both = rw (in_array-append x ids (flat pieces)) at h in rw not at both in
      piece_of faults x pieces (ground arith) rest
]

pub read_for :
    (faults : Faults) (x : ℕ) (d : Directory) (members : List MemberRow) (ps : List ProfileRow)
    → profiles_of faults d members ≡ some ps
    → in_array x (current_profiles members) ≡ true
    → ReadFor faults x
unfolding profiles_of
read_for faults x d members ps e h =
    let ids = current_profiles members in
    let pieces = chunked ids default_size in
    elim (Bool-cases (any_row faults.profiles pieces)) [
      | inl failed ↦ let n = rw failed at e in cc
      | inr fine ↦
          piece_of faults x pieces fine
            (ap (in_array x) (chunked-pieces ids default_size (omega arith)).0 ∙ h)
    ]

in_array-distinct_first :
    (x : ℕ) (seen ns : List ℕ)
    → in_array x seen || in_array x (distinct_first seen ns) ≡ in_array x seen || in_array x ns
unfolding distinct_first
in_array-distinct_first x seen [] = refl
in_array-distinct_first x seen (n ∷ ns) = elim (Bool-cases (in_array n seen)) [
  | inl old ↦ elim (Bool-cases (x == n)) [
    | inl hit ↦
        let same_id : x ≡ n = ground arith in
        let was : in_array x seen ≡ true = ap (λ y. in_array y seen) same_id ∙ old in rw was refl
    | inr miss ↦ rw (old, miss, distinct_first) (in_array-distinct_first x seen ns)
  ]
  | inr new ↦ rw (new, distinct_first) (ground (arith, in_array-distinct_first x (n ∷ seen) ns))
]

-- An account is among the current ones of a list exactly when it is an account of it.
pub current-accounts :
    (x : ℕ) (members : List MemberRow)
    → in_array x (current_profiles members) ≡ in_array x (accounts_of members)
unfolding current_profiles
current-accounts x members = in_array-distinct_first x [] (accounts_of members)

pub accounts-append :
    (x : ℕ) (ms ns : List MemberRow)
    → in_array x (accounts_of (ms ++ ns))
      ≡ in_array x (accounts_of ms) || in_array x (accounts_of ns)
unfolding accounts_of
accounts-append x [] ns = refl
accounts-append x (m ∷ ms) ns =
    in_array-append x (current_account m.profile_id m.left_at) (accounts_of (ms ++ ns))
    ∙ rw
        (
          accounts-append x ms ns,
          in_array-append x (current_account m.profile_id m.left_at) (accounts_of ms),
        )
        (ground arith)
