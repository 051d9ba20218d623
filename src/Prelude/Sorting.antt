-- ===== src/Prelude/Sorting.antt =====
-- Lists sorted by a key that no two of their rows share: what a page cut from one holds.
use Prim.Native.Nat.{ℕ, zero, suc, ◌≤◌, ◌<◌}
use mathlib.Core.Path.{◌≡◌, refl, sym, ◌∙◌}
use mathlib.Core.Logic.{inl, inr}
use mathlib.Core.Bool.{Bool, true, false, ◌||◌}
use mathlib.Core.List.{List, [], ◌∷◌}
use native.Mathlib.Omega.{arith}
use opensplit.Prelude.Tests.{if◌then◌else◌, leb, ltb, ◌==◌, Bool-cases}
use opensplit.Prelude.Lists.{length, take, rows_where, any_row, All, insert_by, sort_by}

module _ {A : Type 0} (key : A → ℕ) where
  -- No two rows have one key.
  abbrev pub Keyed : List A → Type 0
  Keyed [] = Unit
  Keyed (x ∷ xs) = (any_row (λ y. key y == key x) xs ≡ false) × Keyed xs

  abbrev pub Ascends : List A → Type 0
  Ascends [] = Unit
  Ascends (x ∷ xs) = All (λ y. key x < key y) xs × Ascends xs

  -- The key of the last row, or another number if there is none.
  abbrev pub last_key : ℕ → List A → ℕ
  last_key d [] = d
  last_key d (x ∷ xs) = last_key (key x) xs

  All-insert_by :
      (b : ℕ) (x : A) (ys : List A)
      → b < key x
      → All (λ y. b < key y) ys
      → All (λ y. b < key y) (insert_by key x ys)
  All-insert_by b x [] h a = (h, tt)
  All-insert_by b x (y ∷ ys) h a = ground (arith, All-insert_by b x ys h a.1)

  above_less : (b c : ℕ) (ys : List A) → b ≤ c → All (λ y. c < key y) ys → All (λ y. b < key y) ys
  above_less b c [] h a = tt
  above_less b c (y ∷ ys) h a = (omega arith, above_less b c ys h a.1)

  insert_by-Ascends :
      (x : A) (ys : List A)
      → any_row (λ y. key y == key x) ys ≡ false
      → Ascends ys
      → Ascends (insert_by key x ys)
  insert_by-Ascends x [] h a = (tt, tt)
  insert_by-Ascends x (y ∷ ys) h a = elim (Bool-cases (leb (key x) (key y))) [
    | inl below ↦
        let under : key x < key y = ground arith in
        rw below ((under, above_less (key x) (key y) ys (omega arith) a.0), a)
    | inr above ↦
        let over : key y < key x = ground arith in
        rw above (All-insert_by (key y) x ys over a.0, insert_by-Ascends x ys (ground arith) a.1)
  ]

  any_row-insert_by :
      (q : A → Bool) (x : A) (ys : List A) → any_row q (insert_by key x ys) ≡ q x || any_row q ys
  any_row-insert_by q x [] = refl
  any_row-insert_by q x (y ∷ ys) = ground (arith, any_row-insert_by q x ys)

  pub any_row-sort_by : (q : A → Bool) (xs : List A) → any_row q (sort_by key xs) ≡ any_row q xs
  any_row-sort_by q [] = refl
  any_row-sort_by q (x ∷ xs) =
      any_row-insert_by q x (sort_by key xs) ∙ rw (any_row-sort_by q xs) refl

  pub sort_by-Ascends : (xs : List A) → Keyed xs → Ascends (sort_by key xs)
  sort_by-Ascends [] h = tt
  sort_by-Ascends (x ∷ xs) h =
      insert_by-Ascends x (sort_by key xs) (any_row-sort_by _ xs ∙ h.0) (sort_by-Ascends xs h.1)

  insert_by_first :
      (x : A) (ys : List A) → All (λ y. key x < key y) ys → insert_by key x ys ≡ x ∷ ys
  insert_by_first x [] a = refl
  insert_by_first x (y ∷ ys) a = ground arith

  All-rows_where :
      (b : ℕ) (q : A → Bool) (ys : List A)
      → All (λ y. b < key y) ys
      → All (λ y. b < key y) (rows_where q ys)
  All-rows_where b q [] a = tt
  All-rows_where b q (y ∷ ys) a = ground (arith, All-rows_where b q ys a.1)

  rows_where-insert_by :
      (q : A → Bool) (x : A) (ys : List A)
      → any_row (λ y. key y == key x) ys ≡ false
      → Ascends ys
      → rows_where q (insert_by key x ys)
        ≡ (if q x then insert_by key x (rows_where q ys) else rows_where q ys)
  rows_where-insert_by q x [] h a = ground arith
  rows_where-insert_by q x (y ∷ ys) h a = elim (Bool-cases (leb (key x) (key y))) [
    | inl below ↦
        let under : key x < key y = ground arith in
        let all = above_less (key x) (key y) ys (omega arith) a.0 in
        let first =
          insert_by_first x (rows_where q (y ∷ ys))
            (All-rows_where (key x) q (y ∷ ys) (under, all)) in
        rw (below, first) refl
    | inr above ↦ ground (arith, rows_where-insert_by q x ys (ground arith) a.1)
  ]

  any_row-rows_where :
      (q r : A → Bool) (xs : List A) → any_row q xs ≡ false → any_row q (rows_where r xs) ≡ false
  any_row-rows_where q r [] h = refl
  any_row-rows_where q r (x ∷ xs) h = ground (arith, any_row-rows_where q r xs)

  pub rows_where-Keyed : (q : A → Bool) (xs : List A) → Keyed xs → Keyed (rows_where q xs)
  rows_where-Keyed q [] h = tt
  rows_where-Keyed q (x ∷ xs) h = elim (Bool-cases (q x)) [
    | inl hit ↦ rw hit (any_row-rows_where _ q xs h.0, rows_where-Keyed q xs h.1)
    | inr miss ↦ rw miss (rows_where-Keyed q xs h.1)
  ]

  pub rows_where-sort_by :
      (q : A → Bool) (xs : List A)
      → Keyed xs
      → rows_where q (sort_by key xs) ≡ sort_by key (rows_where q xs)
  rows_where-sort_by q [] h = refl
  rows_where-sort_by q (x ∷ xs) h =
      rows_where-insert_by q x (sort_by key xs) (any_row-sort_by _ xs ∙ h.0)
        (sort_by-Ascends xs h.1)
      ∙ ground (arith, rows_where-sort_by q xs h.1)

  none_up_to :
      (d b : ℕ) (xs : List A)
      → d ≤ b
      → All (λ y. b < key y) xs
      → rows_where (λ y. leb (key y) d) xs ≡ []
  none_up_to d b [] h a = refl
  none_up_to d b (x ∷ xs) h a = ground (arith, none_up_to d b xs h a.1)

  pub last_key_above :
      (d : ℕ) (n : ℕ) (xs : List A)
      → All (λ y. d < key y) xs
      → Ascends xs
      → d ≤ last_key d (take n xs)
  last_key_above d zero xs a s = omega arith
  last_key_above d (suc n) [] a s = omega arith
  last_key_above d (suc n) (x ∷ xs) a s = omega (arith, last_key_above (key x) n xs s.0 s.1, a.0)

  -- The first rows of a sorted list are those up to the last of them.
  pub take_up_to :
      (d : ℕ) (n : ℕ) (xs : List A)
      → All (λ y. d < key y) xs
      → Ascends xs
      → take n xs ≡ rows_where (λ y. leb (key y) (last_key d (take n xs))) xs
  take_up_to d zero xs a s = sym (none_up_to d d xs (omega arith) a)
  take_up_to d (suc n) [] a s = refl
  take_up_to d (suc n) (x ∷ xs) a s =
      let here : leb (key x) (last_key (key x) (take n xs)) ≡ true =
        ground (arith, last_key_above (key x) n xs s.0 s.1) in
      rw (here, sym (take_up_to (key x) n xs s.0 s.1)) refl

  pub none_after :
      (d : ℕ) (n : ℕ) (xs : List A)
      → length xs ≤ n
      → All (λ y. d < key y) xs
      → Ascends xs
      → any_row (λ y. ltb (last_key d (take n xs)) (key y)) xs ≡ false
  none_after d n [] h a s = refl
  none_after d zero (x ∷ xs) h a s = absurd (omega arith)
  none_after d (suc n) (x ∷ xs) h a s =
      let up = last_key_above (key x) n xs s.0 s.1 in
      ground (arith, none_after (key x) n xs (omega arith) s.0 s.1, up)
