-- ===== src/Accounts/Profiles/Renewed.antt =====
-- What one write of profiles changes of what the feed has given out (server/src/db/d1/profile-version.ts).
use opensplit.Prelude.{
  ℕ, ◌+◌, ◌-◌, ◌≤◌, ◌<◌, ◌≡◌, refl, ap, ◌∙◌, ◌⊎◌, inl, inr, Bool, true, not, Option, none, some,
  List, [], ◌∷◌, ◌++◌, any_row, find_row, rows_where, Bool-cases, arith, ◌==◌,
}
use opensplit.Prelude.Text.{Text}
use opensplit.Prelude.Sorting.{rows_where-Keyed}
use opensplit.Group.Upkeep.{in_array}
use opensplit.Directory.Tables.{Directory, ProfileRow}
use opensplit.Accounts.Profiles.{
  next_profile_version, profile_version, write_profile, create_profile,
}
use opensplit.Accounts.Profiles.Versions.{IsVersioned, version_of, id_of, Numbered, rewritten}
use opensplit.Accounts.Guests.{collect_abandoned_guests, abandoned, guest_lifetime}
use opensplit.Accounts.Guests.Abandoned.{delete_profiles-chunked, find_kept}

abbrev profile_of : ℕ → Directory → Option ProfileRow
profile_of id d = find_row (λ p. p.id == id) d.profiles

-- A row written after a version, or none.
abbrev pub Newer : ℕ → Option ProfileRow → Type 0
Newer n none = Unit
Newer n (some p) = n < p.version

-- Nothing the feed gave out up to now can change behind it.
pub record Follows (d e : Directory) : Type 0 where
  pub counter : profile_version d ≤ profile_version e
  pub profiles :
      (id : ℕ)
      → (find_row (λ p. p.id == id) e.profiles ≡ find_row (λ p. p.id == id) d.profiles)
        ⊎ Newer (profile_version d) (find_row (λ p. p.id == id) e.profiles)

lower_bound : (n m : ℕ) (o : Option ProfileRow) → n ≤ m → Newer m o → Newer n o
lower_bound n m none h k = tt
lower_bound n m (some p) h k = omega arith

pub Follows-refl : (d : Directory) → Follows d d
Follows-refl d = record { counter = omega arith; profiles = λ id. inl refl }

pub Follows-trans : (d e f : Directory) → Follows d e → Follows e f → Follows d f
Follows-trans d e f h k = record {
  counter = omega (arith, h.counter, k.counter);
  profiles = λ id. elim (k.profiles id) [
    | inr new ↦ inr (lower_bound _ _ (profile_of id f) h.counter new)
    | inl same_e ↦ elim (h.profiles id) [
      | inl same_d ↦ inl (same_e ∙ same_d)
      | inr new ↦ inr (rw same_e new)
    ]
  ];
}

module _ (change : ProfileRow → ProfileRow) (now : ℕ) where
  find-rewritten :
      (id profile v n : ℕ) (ps : List ProfileRow)
      → n < v
      → (find_row (λ p. p.id == id) (rewritten change now profile v ps)
          ≡ find_row (λ p. p.id == id) ps)
        ⊎ Newer n (find_row (λ p. p.id == id) (rewritten change now profile v ps))
  find-rewritten id profile v n [] l = inl refl
  find-rewritten id profile v n (p ∷ ps) l = ground (arith, find-rewritten id profile v n ps l)

  pub write_profile-Follows :
      (profile : ℕ) (d : Directory) → Follows d (write_profile profile change now d)
  unfolding write_profile next_profile_version profile_version
  write_profile-Follows profile d = record {
    counter = omega arith;
    profiles = λ id.
        find-rewritten id profile (profile_version d + 1) (profile_version d) d.profiles
          (omega arith);
  }

find-snoc :
    (id n : ℕ) (x : ProfileRow) (ps : List ProfileRow)
    → n < x.version
    → (find_row (λ p. p.id == id) (ps ++ x ∷ []) ≡ find_row (λ p. p.id == id) ps)
      ⊎ Newer n (find_row (λ p. p.id == id) (ps ++ x ∷ []))
find-snoc id n x [] l = ground arith
find-snoc id n x (p ∷ ps) l = ground (arith, find-snoc id n x ps l)

pub create_profile-Follows :
    (profile : ℕ) (anonymous : Bool) (name : Option Text) (now : ℕ) (d : Directory)
    → Follows d (create_profile profile anonymous name now d)
unfolding create_profile next_profile_version profile_version
create_profile-Follows profile anonymous name now d =
    elim (Bool-cases (any_row (λ p. p.id == profile) d.profiles)) [
      | inl there ↦ rw there (record { counter = omega arith; profiles = λ id. inl refl })
      | inr free ↦ rw free (record {
        counter = omega arith;
        profiles = λ id. find-snoc id (profile_version d) _ d.profiles (omega arith);
      })
    ]

find_gone :
    (id : ℕ) (ids : List ℕ) (ps : List ProfileRow)
    → in_array id ids ≡ true
    → find_row (λ p. p.id == id) (rows_where (λ p. not (in_array p.id ids)) ps) ≡ none
find_gone id ids [] h = refl
find_gone id ids (p ∷ ps) h = elim (Bool-cases (p.id == id)) [
  | inl hit ↦
      let same_id : p.id ≡ id = ground arith in
      let goes : in_array p.id ids ≡ true = ap (λ x. in_array x ids) same_id ∙ h in
      rw goes (find_gone id ids ps h)
  | inr miss ↦ ground (arith, find_gone id ids ps h)
]

find-collected :
    (id n : ℕ) (ids : List ℕ) (ps : List ProfileRow)
    → (find_row (λ p. p.id == id) (rows_where (λ p. not (in_array p.id ids)) ps)
        ≡ find_row (λ p. p.id == id) ps)
      ⊎ Newer n (find_row (λ p. p.id == id) (rows_where (λ p. not (in_array p.id ids)) ps))
find-collected id n ids ps = elim (Bool-cases (in_array id ids)) [
  | inl goes ↦ inr (rw (find_gone id ids ps goes) tt)
  | inr stays ↦ inl (find_kept id ids ps stays)
]

pub collects-Follows : (now : ℕ) (d : Directory) → Follows d (collect_abandoned_guests now d).1
unfolding collect_abandoned_guests profile_version
collects-Follows now d = record {
  counter = omega arith;
  profiles = λ id.
      rw (delete_profiles-chunked (abandoned (now - guest_lifetime) d) d.profiles)
        (find-collected id (profile_version d) (abandoned (now - guest_lifetime) d) d.profiles);
}

Numbered-rows_where :
    (n : ℕ) (q : ProfileRow → Bool) (ps : List ProfileRow)
    → Numbered n ps
    → Numbered n (rows_where q ps)
Numbered-rows_where n q [] a = tt
Numbered-rows_where n q (p ∷ ps) a = ground (arith, Numbered-rows_where n q ps a.1)

pub collects-IsVersioned :
    (now : ℕ) (d : Directory) → IsVersioned d → IsVersioned (collect_abandoned_guests now d).1
unfolding collect_abandoned_guests profile_version
collects-IsVersioned now d h =
    let ids = abandoned (now - guest_lifetime) d in
    let kept = λ (p : ProfileRow). not (in_array p.id ids) in
    let left = delete_profiles-chunked ids d.profiles in
    record {
      ids = rw left (rows_where-Keyed id_of kept d.profiles h.ids);
      versions = rw left (rows_where-Keyed version_of kept d.profiles h.versions);
      numbered = rw left (Numbered-rows_where (profile_version d) kept d.profiles h.numbered);
    }
