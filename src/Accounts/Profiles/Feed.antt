-- ===== src/Accounts/Profiles/Feed.antt =====
-- server/src/api/account.ts, `getProfiles`: what a page of the profile feed holds.
use opensplit.Prelude.{
  ℕ, zero, suc, ◌+◌, ltb, leb, ◌≤◌, ◌<◌, ◌≡◌, refl, sym, ap, ◌∙◌, Bool, true, false, ◌&&◌, List, [],
  ◌∷◌, any_row, rows_where, take, length, length-take, sort_by, All, arith,
}
use opensplit.Prelude.Sorting.{
  Ascends, last_key, sort_by-Ascends, any_row-sort_by, rows_where-sort_by, rows_where-Keyed,
  take_up_to, none_after, last_key_above,
}
use opensplit.Directory.Tables.{Directory, ProfileRow}
use opensplit.Accounts.Profiles.{ProfilePage, visible_to, is_newer, profile_feed}
use opensplit.Accounts.Profiles.Versions.{IsVersioned, version_of}

-- A page past a cursor: it holds, oldest version first, exactly the visible profiles written after
-- the cursor and up to where it leaves it; it moves the cursor on if there is more, and otherwise
-- leaves no visible profile behind.
pub record IsFeedPage (d : Directory) (self since : ℕ) (page : ProfilePage) : Type 0 where
  pub forward : since ≤ page.seq
  pub rows :
      page.profiles
      ≡ sort_by
          (λ (p : ProfileRow). p.version)
          (rows_where
            (λ p. (visible_to d self p.id && ltb since p.version) && leb p.version page.seq)
            d.profiles)
  pub more : page.has_more ≡ true → since < page.seq
  pub all :
      page.has_more ≡ false
      → any_row (λ p. visible_to d self p.id && ltb page.seq p.version) d.profiles ≡ false

above :
    (d : Directory) (self since : ℕ) (ps : List ProfileRow)
    → All (λ (p : ProfileRow). since < p.version) (rows_where (is_newer d self since) ps)
above d self since [] = tt
above d self since (p ∷ ps) = ground (arith, above d self since ps)

twice :
    (q r : ProfileRow → Bool) (ps : List ProfileRow)
    → rows_where r (rows_where q ps) ≡ rows_where (λ p. q p && r p) ps
twice q r [] = refl
twice q r (p ∷ ps) = ground (arith, twice q r ps)

All_any :
    (b : ℕ) (q : ProfileRow → Bool) (ps : List ProfileRow)
    → ((p : ProfileRow) → q p ≡ true → b < p.version)
    → any_row (λ p. leb p.version b && q p) ps ≡ false
All_any b q [] h = refl
All_any b q (p ∷ ps) h = ground (arith, h p, All_any b q ps h)

All-sort :
    (b : ℕ) (ps : List ProfileRow)
    → any_row (λ p. leb p.version b) ps ≡ false
    → All (λ (p : ProfileRow). b < p.version) ps
All-sort b [] h = tt
All-sort b (p ∷ ps) h = (ground arith, All-sort b ps (ground arith))

none_low :
    (b : ℕ) (ps : List ProfileRow)
    → All (λ (p : ProfileRow). b < p.version) ps
    → any_row (λ p. leb p.version b) ps ≡ false
none_low b [] h = refl
none_low b (p ∷ ps) h = ground (arith, none_low b ps h.1)

take_again : {A : Type 0} (n m : ℕ) (xs : List A) → n ≤ m → take n (take m xs) ≡ take n xs
take_again zero m xs h = refl
take_again (suc n) zero xs h = absurd (omega arith)
take_again (suc n) (suc m) [] h = refl
take_again (suc n) (suc m) (x ∷ xs) h = rw (take_again n m xs (omega arith)) refl

long_take : {A : Type 0} (n : ℕ) (xs : List A) → length (take (n + 1) xs) ≤ n → length xs ≤ n
long_take n xs h = omega (arith, length-take (n + 1) xs)

grows :
    (since n : ℕ) (xs : List ProfileRow)
    → All (λ (p : ProfileRow). since < p.version) xs
    → Ascends version_of xs
    → suc n < length xs
    → since < last_key version_of since (take (suc n) xs)
grows since n [] a s h = absurd (omega arith)
grows since n (x ∷ xs) a s h = omega (arith, last_key_above version_of x.version n xs s.0 s.1, a.0)

longer : (n : ℕ) (xs : List ProfileRow) → n < length (take (n + 1) xs) → n < length xs
longer n xs h = omega (arith, length-take (n + 1) xs)

unseen :
    (d : Directory) (self since seq : ℕ) (ps : List ProfileRow)
    → since ≤ seq
    → any_row (λ p. ltb seq p.version) (rows_where (is_newer d self since) ps) ≡ false
    → any_row (λ p. visible_to d self p.id && ltb seq p.version) ps ≡ false
unseen d self since seq [] h a = refl
unseen d self since seq (p ∷ ps) h a = ground (arith, unseen d self since seq ps h)

-- For a limit above zero and profiles whose versions are unique, the feed answers with a page past the
-- cursor: the visible profiles after the cursor and up to where it leaves it, oldest version first;
-- the cursor moves on if there is more, and otherwise no visible profile is left behind.
pub profile_feed-IsFeedPage :
    (self since limit : ℕ) (d : Directory)
    → 1 ≤ limit
    → IsVersioned d
    → IsFeedPage d self since (profile_feed self since limit d)
unfolding profile_feed
profile_feed-IsFeedPage self since zero d l v = absurd (omega arith)
profile_feed-IsFeedPage self since (suc n) d l v =
    let limit = suc n in
    let newer = rows_where (is_newer d self since) d.profiles in
    let keyed = rows_where-Keyed version_of (is_newer d self since) d.profiles v.versions in
    let sorted = sort_by version_of newer in
    let up = sort_by-Ascends version_of newer keyed in
    let low =
      All-sort since sorted (
        any_row-sort_by version_of _ newer
        ∙ none_low since newer (above d self since d.profiles)) in
    let seq = last_key version_of since (take limit sorted) in
    let cut = take_again limit (limit + 1) sorted (omega arith) in
    let forward : since ≤ seq = last_key_above version_of since limit sorted low up in
    let rows : take limit sorted
        ≡ sort_by version_of
            (rows_where (λ p. is_newer d self since p && leb p.version seq) d.profiles) =
      take_up_to version_of since limit sorted low up
      ∙ (rows_where-sort_by version_of _ newer keyed
          ∙ ap (sort_by version_of)
              (twice (is_newer d self since) (λ p. leb p.version seq) d.profiles)) in
    record {
      forward = rw cut forward;
      rows = rw cut rows;
      more = λ h. rw cut (grows since n sorted low up (longer limit sorted (ground arith)));
      all = λ h. rw cut (
          unseen d self since seq d.profiles forward (
            sym (any_row-sort_by version_of _ newer)
            ∙ none_after version_of since limit sorted (long_take limit sorted (ground arith)) low
                up));
    }
