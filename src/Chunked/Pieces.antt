-- ===== src/Chunked/Pieces.antt =====
-- What `chunked` (server/src/chunked.ts) does to a list: nothing lost, nothing too long.
use opensplit.Prelude.{
  ℕ, zero, suc, ◌≤◌, ◌<◌, ◌≡◌, refl, ap, ◌∙◌, ◌*◌, ◌/◌, max, List, [], ◌∷◌, ◌++◌, All, take, drop,
  length, length-take, length-drop, take-append-drop, arith,
}
use native.Mathlib.Nat.{le-div_iff_mul-le, mul-div-le, mul-le-mul}
use opensplit.Chunked.{max_bound_values, chunks_from, chunked, insertable}

-- The pieces, end to end.
abbrev pub flat {ℓ} : {A : Type ℓ} → List (List A) → List A
flat [] = []
flat (xs ∷ xss) = xs ++ flat xss

-- Not empty, and no longer than the limit.
abbrev pub Fits {ℓ} : {A : Type ℓ} → ℕ → List A → Type 0
Fits size piece = (0 < length piece) × (length piece ≤ size)

module _ {ℓ} {A : Type ℓ} where
  flat-chunks_from :
      (rounds size : ℕ) (items : List A)
      → 0 < size
      → length items ≤ rounds
      → flat (chunks_from rounds size items) ≡ items
  unfolding chunks_from
  flat-chunks_from zero size [] h e = refl
  flat-chunks_from zero size (x ∷ items) h e = ground arith
  flat-chunks_from (suc rounds) size [] h e = refl
  flat-chunks_from (suc rounds) size (x ∷ items) h e =
      ap (λ t. take size (x ∷ items) ++ t)
        (flat-chunks_from rounds size (drop size (x ∷ items)) h
          (omega (arith, length-drop size (x ∷ items))))
      ∙ take-append-drop size (x ∷ items)

  chunks_from-Fits :
      (rounds size : ℕ) (items : List A)
      → 0 < size
      → All (Fits size) (chunks_from rounds size items)
  unfolding chunks_from
  chunks_from-Fits zero size items h = tt
  chunks_from-Fits (suc rounds) size [] h = tt
  chunks_from-Fits (suc rounds) size (x ∷ items) h = (
    (omega (arith, length-take size (x ∷ items)), omega (arith, length-take size (x ∷ items))),
    chunks_from-Fits rounds size (drop size (x ∷ items)) h,
  )

  -- For a positive size, the pieces of a list are the list cut up: laid end to end they are the
  -- list, and each holds at least one element and at most `size`.
  pub chunked-pieces :
      (items : List A) (size : ℕ)
      → 0 < size
      → (flat (chunked items size) ≡ items) × All (Fits size) (chunked items size)
  unfolding chunked
  chunked-pieces items size h = (
    flat-chunks_from (length items) size items h (omega arith),
    chunks_from-Fits (length items) size items h,
  )

-- Not empty, and with no more values, at so many columns, than one statement binds.
abbrev pub Binds {ℓ} : {A : Type ℓ} → ℕ → List A → Type 0
Binds columns piece = (0 < length piece) × (columns * length piece ≤ max_bound_values)

abbrev rows_of : ℕ → ℕ
rows_of columns = max_bound_values / max 1 columns

rows_of_positive : (columns : ℕ) → columns ≤ max_bound_values → 0 < rows_of columns
rows_of_positive columns h =
    (le-div_iff_mul-le {k = max 1 columns} {x = 1} {y = max_bound_values} (omega arith)).1
      (omega (arith, h))

values_of_piece : (columns n : ℕ) → n ≤ rows_of columns → columns * n ≤ max_bound_values
values_of_piece columns n h =
    let grown : columns * n ≤ max 1 columns * rows_of columns = mul-le-mul (omega arith) h in
    omega (arith, grown, mul-div-le max_bound_values (max 1 columns))

module _ {ℓ} {A : Type ℓ} (columns : ℕ) where
  Fits-Binds :
      (pieces : List (List A)) → All (Fits (rows_of columns)) pieces → All (Binds columns) pieces
  Fits-Binds [] f = tt
  Fits-Binds (p ∷ pieces) f =
      ((f.0.0, values_of_piece columns (length p) f.0.1), Fits-Binds pieces f.1)

  -- Rows of no more columns than one statement binds values, in pieces: laid end to end they are
  -- the rows, and each holds at least one row and binds no more values than one statement may.
  pub insertable-pieces :
      (rows : List A)
      → columns ≤ max_bound_values
      → (flat (insertable columns rows) ≡ rows) × All (Binds columns) (insertable columns rows)
  unfolding insertable
  insertable-pieces rows h =
      let pieces = chunked-pieces rows (rows_of columns) (rows_of_positive columns h) in
      (pieces.0, Fits-Binds (chunked rows (rows_of columns)) pieces.1)
