-- ===== src/Accounts/Guests/Abandoned.antt =====
-- server/src/scheduled.ts, `collectAbandonedGuests`: who is collected, and who is not.
use opensplit.Prelude.{
  ℕ, zero, suc, ◌-◌, ◌≤◌, ◌<◌, ◌≡◌, refl, sym, ap, ◌∙◌, Bool, true, false, ◌&&◌, ◌||◌, not, List,
  [], ◌∷◌, ◌++◌, map, rows_where, any_row, find_row, take, length, Bool-cases, inl, inr, arith,
  ◌==◌,
}
use opensplit.Chunked.{chunked, default_size}
use opensplit.Chunked.Pieces.{flat, chunked-pieces}
use opensplit.Group.Upkeep.{in_array}
use opensplit.Directory.Tables.{Directory, UserRow, ProfileRow, SessionRow}
use opensplit.Directory.Apply.{has_account}
use opensplit.Accounts.Guests.{
  guest_lifetime, guest_batch, is_abandoned, abandoned, delete_profiles, collect_abandoned_guests,
}

in_array-append : (x : ℕ) (xs ys : List ℕ) → in_array x (xs ++ ys) ≡ in_array x xs || in_array x ys
in_array-append x [] ys = refl
in_array-append x (y ∷ xs) ys = ground (arith, in_array-append x xs ys)

keep_both :
    (xs ys : List ℕ) (ps : List ProfileRow)
    → rows_where (λ p. not (in_array p.id ys)) (rows_where (λ p. not (in_array p.id xs)) ps)
      ≡ rows_where (λ p. not (in_array p.id (xs ++ ys))) ps
keep_both xs ys [] = refl
keep_both xs ys (p ∷ ps) = ground (arith, keep_both xs ys ps, in_array-append p.id xs ys)

keep_all : (ps : List ProfileRow) → rows_where (λ p. true) ps ≡ ps
keep_all [] = refl
keep_all (p ∷ ps) = rw (keep_all ps) refl

delete_profiles-flat :
    (pieces : List (List ℕ)) (ps : List ProfileRow)
    → delete_profiles pieces ps ≡ rows_where (λ p. not (in_array p.id (flat pieces))) ps
unfolding delete_profiles
delete_profiles-flat [] ps = sym (keep_all ps)
delete_profiles-flat (ids ∷ pieces) ps =
    delete_profiles-flat pieces (rows_where (λ p. not (in_array p.id ids)) ps)
    ∙ keep_both ids (flat pieces) ps

-- Deleting the profiles in pieces deletes those of the ids.
pub delete_profiles-chunked :
    (ids : List ℕ) (ps : List ProfileRow)
    → delete_profiles (chunked ids default_size) ps ≡ rows_where (λ p. not (in_array p.id ids)) ps
delete_profiles-chunked ids ps =
    delete_profiles-flat (chunked ids default_size) ps
    ∙ ap (λ xs. rows_where (λ (p : ProfileRow). not (in_array p.id xs)) ps)
        (chunked-pieces ids default_size (omega arith)).0

in_array-take : (x n : ℕ) (xs : List ℕ) → in_array x xs ≡ false → in_array x (take n xs) ≡ false
in_array-take x zero xs h = refl
in_array-take x (suc n) [] h = refl
in_array-take x (suc n) (y ∷ xs) h = ground (arith, in_array-take x n xs)

not_chosen :
    (u : ℕ) (q : UserRow → Bool) (us : List UserRow)
    → any_row (λ r. r.id == u && q r) us ≡ false
    → in_array u (map (λ (r : UserRow). r.id) (rows_where q us)) ≡ false
not_chosen u q [] h = refl
not_chosen u q (r ∷ us) h = ground (arith, not_chosen u q us)

pub find_kept :
    (u : ℕ) (ids : List ℕ) (ps : List ProfileRow)
    → in_array u ids ≡ false
    → find_row (λ p. p.id == u) (rows_where (λ p. not (in_array p.id ids)) ps)
      ≡ find_row (λ p. p.id == u) ps
find_kept u ids [] h = refl
find_kept u ids (p ∷ ps) h = elim (Bool-cases (p.id == u)) [
  | inl hit ↦
      let same_id : p.id ≡ u = ground arith in
      let stays : in_array p.id ids ≡ false = ap (λ x. in_array x ids) same_id ∙ h in
      rw (stays, hit) refl
  | inr miss ↦ ground (arith, find_kept u ids ps h)
]

any_kept :
    {A : Type 0} (key : A → ℕ) (u : ℕ) (ids : List ℕ) (xs : List A)
    → in_array u ids ≡ false
    → any_row (λ x. key x == u) (rows_where (λ x. not (in_array (key x) ids)) xs)
      ≡ any_row (λ x. key x == u) xs
any_kept key u ids [] h = refl
any_kept key u ids (x ∷ xs) h = elim (Bool-cases (key x == u)) [
  | inl hit ↦
      let same_id : key x ≡ u = ground arith in
      let stays : in_array (key x) ids ≡ false = ap (λ y. in_array y ids) same_id ∙ h in
      rw (stays, hit) refl
  | inr miss ↦ ground (arith, any_kept key u ids xs h)
]

take_all : {A : Type 0} (n : ℕ) (xs : List A) → length (take n xs) < n → take n xs ≡ xs
take_all zero xs h = absurd (omega arith)
take_all (suc n) [] h = refl
take_all (suc n) (x ∷ xs) h = rw (take_all n xs (omega arith)) refl

abbrev ids_where : (UserRow → Bool) → List UserRow → List ℕ
ids_where q us = map (λ (r : UserRow). r.id) (rows_where q us)

-- With every id of the rows chosen, none that was chosen is left.
none_left :
    (q : UserRow → Bool) (ids : List ℕ) (us : List UserRow)
    → ((x : ℕ) → in_array x (ids_where q us) ≡ true → in_array x ids ≡ true)
    → any_row q (rows_where (λ u. not (in_array u.id ids)) us) ≡ false
none_left q ids [] h = refl
none_left q ids (r ∷ us) h = elim (Bool-cases (q r)) [
  | inl hit ↦
      let chosen : in_array r.id ids ≡ true = h r.id (ground arith) in
      rw chosen (none_left q ids us (λ x there. h x (ground arith)))
  | inr miss ↦ ground (arith, none_left q ids us (λ x there. h x (ground arith)))
]

few_taken : {A : Type 0} (n : ℕ) (xs : List A) → length (take n xs) ≤ n
few_taken zero xs = omega arith
few_taken (suc n) [] = omega arith
few_taken (suc n) (x ∷ xs) = omega (arith, few_taken n xs)

-- A sweep at a time: whom it passes over keeps account, profile and sessions, namely everybody who
-- is no abandoned guest; it takes a batch at most; and if that is not full, nobody who was
-- abandoned is left.
pub record IsSwept (now : ℕ) (d : Directory) (swept : ℕ × Directory) : Type 0 where
  pub account :
      (u : ℕ)
      → any_row (λ r. r.id == u && is_abandoned (now - guest_lifetime) d r) d.users ≡ false
      → has_account u swept.1 ≡ has_account u d
  pub profile :
      (u : ℕ)
      → any_row (λ r. r.id == u && is_abandoned (now - guest_lifetime) d r) d.users ≡ false
      → find_row (λ p. p.id == u) swept.1.profiles ≡ find_row (λ p. p.id == u) d.profiles
  pub sessions :
      (u : ℕ)
      → any_row (λ r. r.id == u && is_abandoned (now - guest_lifetime) d r) d.users ≡ false
      → any_row (λ s. s.user_id == u) swept.1.sessions ≡ any_row (λ s. s.user_id == u) d.sessions
  pub batch : swept.0 ≤ guest_batch
  pub all :
      swept.0 < guest_batch → any_row (is_abandoned (now - guest_lifetime) d) swept.1.users ≡ false

-- Whoever is no abandoned guest keeps account, profile and sessions in a sweep; it takes a batch at
-- most, and if the batch is not full nobody who was abandoned is left.
pub collect_abandoned_guests-IsSwept :
    (now : ℕ) (d : Directory) → IsSwept now d (collect_abandoned_guests now d)
unfolding collect_abandoned_guests abandoned has_account
collect_abandoned_guests-IsSwept now d =
    let q = is_abandoned (now - guest_lifetime) d in
    let every = ids_where q d.users in
    let ids = take guest_batch every in
    let stays = λ (u : ℕ) (h : any_row (λ (r : UserRow). r.id == u && q r) d.users ≡ false).
      in_array-take u guest_batch every (not_chosen u q d.users h) in
    record {
      account = λ u h. any_kept (λ (r : UserRow). r.id) u ids d.users (stays u h);
      profile = λ u h.
          ap (find_row (λ (p : ProfileRow). p.id == u)) (delete_profiles-chunked ids d.profiles)
          ∙ find_kept u ids d.profiles (stays u h);
      sessions = λ u h. any_kept (λ (s : SessionRow). s.user_id) u ids d.sessions (stays u h);
      batch = few_taken guest_batch every;
      all = λ few.
          none_left q ids d.users
            (λ x there. ap (in_array x) (take_all guest_batch every few) ∙ there);
    }
