-- ===== src/Accounts/Profiles/Versions.antt =====
-- What every write of profiles keeps: server/src/db/d1/profile-version.ts and the columns it
-- numbers.
use opensplit.Prelude.{
  ℕ, ◌+◌, ◌≤◌, ◌<◌, ◌≡◌, refl, Bool, false, Bool-cases, inl, inr, Option, List, [], ◌∷◌, ◌++◌,
  any_row, update_where, All, arith, ◌==◌,
}
use opensplit.Prelude.Text.{Text}
use opensplit.Prelude.Sorting.{Keyed}
use opensplit.Directory.Tables.{Directory, ProfileRow}
use opensplit.Accounts.Profiles.{
  next_profile_version, profile_version, write_profile, create_profile,
}

abbrev pub version_of : ProfileRow → ℕ
version_of p = p.version

abbrev pub id_of : ProfileRow → ℕ
id_of p = p.id

abbrev pub Numbered : ℕ → List ProfileRow → Type 0
Numbered n ps = All (λ (p : ProfileRow). p.version ≤ n) ps

-- Each account has one profile at most, no two profiles have one version, and none has a version
-- that the counter has not reached.
pub record IsVersioned (d : Directory) : Type 0 where
  pub ids : Keyed (λ (p : ProfileRow). p.id) d.profiles
  pub versions : Keyed (λ (p : ProfileRow). p.version) d.profiles
  pub numbered : All (λ (p : ProfileRow). p.version ≤ profile_version d) d.profiles

later_number : (n m : ℕ) (ps : List ProfileRow) → n ≤ m → Numbered n ps → Numbered m ps
later_number n m [] h a = tt
later_number n m (p ∷ ps) h a = (omega arith, later_number n m ps h a.1)

unused :
    (n m : ℕ) (ps : List ProfileRow)
    → n < m
    → Numbered n ps
    → any_row (λ p. p.version == m) ps ≡ false
unused n m [] h a = refl
unused n m (p ∷ ps) h a = ground (arith, unused n m ps h a.1)

module _ (change : ProfileRow → ProfileRow) (now : ℕ) where
  abbrev pub stamped : ℕ → ProfileRow → ProfileRow
  stamped v p = record (change p) { id = p.id; updated_at = now; version = v }

  abbrev pub rewritten : ℕ → ℕ → List ProfileRow → List ProfileRow
  rewritten profile v ps = update_where (λ p. p.id == profile) (stamped v) ps

  any_id-rewritten :
      (id profile v : ℕ) (ps : List ProfileRow)
      → any_row (λ p. p.id == id) (rewritten profile v ps) ≡ any_row (λ p. p.id == id) ps
  any_id-rewritten id profile v [] = refl
  any_id-rewritten id profile v (p ∷ ps) = ground (arith, any_id-rewritten id profile v ps)

  rewritten_ids :
      (profile v : ℕ) (ps : List ProfileRow) → Keyed id_of ps → Keyed id_of (rewritten profile v ps)
  rewritten_ids profile v [] h = tt
  rewritten_ids profile v (p ∷ ps) h =
      ground (arith, rewritten_ids profile v ps h.1, any_id-rewritten p.id profile v ps)

  rewritten_none :
      (profile v : ℕ) (ps : List ProfileRow)
      → any_row (λ p. p.id == profile) ps ≡ false
      → rewritten profile v ps ≡ ps
  rewritten_none profile v [] h = refl
  rewritten_none profile v (p ∷ ps) h =
      let miss : (p.id == profile) ≡ false = ground arith in
      rw (miss, rewritten_none profile v ps (ground arith)) refl

  -- Of a version that no row has, one row is given at most.
  any_version-rewritten :
      (n m profile v : ℕ) (ps : List ProfileRow)
      → any_row (λ p. p.version == m) ps ≡ false
      → m < v
      → any_row (λ p. p.version == m) (rewritten profile v ps) ≡ false
  any_version-rewritten n m profile v [] h l = refl
  any_version-rewritten n m profile v (p ∷ ps) h l =
      ground (arith, any_version-rewritten n m profile v ps)

  rewritten_versions :
      (n profile v : ℕ) (ps : List ProfileRow)
      → n < v
      → Keyed id_of ps
      → Keyed version_of ps
      → Numbered n ps
      → Keyed version_of (rewritten profile v ps)
  rewritten_versions n profile v [] l i h a = tt
  rewritten_versions n profile v (p ∷ ps) l i h a = elim (Bool-cases (p.id == profile)) [
    | inl hit ↦
        let same_id : p.id ≡ profile = ground arith in
        let rest = rewritten_none profile v ps (rw same_id at i.0) in
        rw (hit, rest) (unused n v ps l a.1, h.1)
    | inr miss ↦
        let low : p.version < v = omega (arith, a.0) in
        rw miss (
          any_version-rewritten n p.version profile v ps h.0 low,
          rewritten_versions n profile v ps l i.1 h.1 a.1,
        )
  ]

  rewritten-Numbered :
      (n profile v : ℕ) (ps : List ProfileRow)
      → n ≤ v
      → Numbered n ps
      → Numbered v (rewritten profile v ps)
  rewritten-Numbered n profile v [] l a = tt
  rewritten-Numbered n profile v (p ∷ ps) l a =
      ground (arith, rewritten-Numbered n profile v ps l a.1)

  pub write_profile-IsVersioned :
      (profile : ℕ) (d : Directory)
      → IsVersioned d
      → IsVersioned (write_profile profile change now d)
  unfolding write_profile next_profile_version profile_version
  write_profile-IsVersioned profile d h =
      let n = profile_version d in
      record {
        ids = rewritten_ids profile (n + 1) d.profiles h.ids;
        versions =
            rewritten_versions n profile (n + 1) d.profiles (omega arith) h.ids h.versions
              h.numbered;
        numbered = rewritten-Numbered n profile (n + 1) d.profiles (omega arith) h.numbered;
      }

any_row-snoc :
    (q : ProfileRow → Bool) (x : ProfileRow) (ps : List ProfileRow)
    → any_row q ps ≡ false
    → q x ≡ false
    → any_row q (ps ++ x ∷ []) ≡ false
any_row-snoc q x [] h g = ground arith
any_row-snoc q x (p ∷ ps) h g = ground (arith, any_row-snoc q x ps)

Keyed-snoc :
    (key : ProfileRow → ℕ) (x : ProfileRow) (ps : List ProfileRow)
    → any_row (λ p. key p == key x) ps ≡ false
    → Keyed key ps
    → Keyed key (ps ++ x ∷ [])
Keyed-snoc key x [] h k = (refl, tt)
Keyed-snoc key x (p ∷ ps) h k =
    (any_row-snoc _ x ps k.0 (ground arith), Keyed-snoc key x ps (ground arith) k.1)

Numbered-snoc :
    (n : ℕ) (x : ProfileRow) (ps : List ProfileRow)
    → x.version ≤ n
    → Numbered n ps
    → Numbered n (ps ++ x ∷ [])
Numbered-snoc n x [] h a = (h, tt)
Numbered-snoc n x (p ∷ ps) h a = (a.0, Numbered-snoc n x ps h a.1)

pub create_profile-IsVersioned :
    (profile : ℕ) (anonymous : Bool) (name : Option Text) (now : ℕ) (d : Directory)
    → IsVersioned d
    → IsVersioned (create_profile profile anonymous name now d)
unfolding create_profile next_profile_version profile_version
create_profile-IsVersioned profile anonymous name now d h =
    let n = profile_version d in
    let later = later_number n (n + 1) d.profiles (omega arith) h.numbered in
    elim (Bool-cases (any_row (λ p. p.id == profile) d.profiles)) [
      | inl there ↦ rw there (record { ids = h.ids; versions = h.versions; numbered = later })
      | inr free ↦ rw free (record {
        ids = Keyed-snoc id_of _ d.profiles free h.ids;
        versions =
            Keyed-snoc version_of _ d.profiles
              (unused n (n + 1) d.profiles (omega arith) h.numbered) h.versions;
        numbered = Numbered-snoc (n + 1) _ d.profiles (omega arith) later;
      })
    ]
