-- ===== src/Fx/Gaps/Covered.antt =====
-- server/src/do/fx/index.ts, `gaps`: no day of the year is left without an answer.
use opensplit.Prelude.{
  ℕ, ◌+◌, ◌-◌, ◌≤◌, ◌≡◌, refl, ◌∙◌, ltb, leb, Bool, true, ◌&&◌, ◌||◌, not, List, [], ◌∷◌, ◌++◌, map,
  any_row, rows_where, sort_by, insert_by, ◌==◌, arith, ◌⊎◌, inl, inr, Bool-cases,
}
use opensplit.Fx.Tables.{RateRow, Gap, FxDb}
use opensplit.Fx.Rates.{history_days, stale_after_days, iso_day}
use opensplit.Fx.Gaps.{distinct, published, gaps_after, gaps}

-- Whether a day lies in a gap.
abbrev pub spans : ℕ → Gap → Bool
spans d g = leb g.first d && leb d g.last

-- Whether a publication answers for a day.
abbrev pub is_recent : ℕ → ℕ → Bool
is_recent d p = leb p d && leb d (p + stale_after_days)

any_row-insert_by :
    (p : ℕ → Bool) (x : ℕ) (ys : List ℕ) → any_row p (insert_by (λ d. d) x ys) ≡ p x || any_row p ys
any_row-insert_by p x [] = refl
any_row-insert_by p x (y ∷ ys) = ground (arith, any_row-insert_by p x ys)

any_row-sort_by : (p : ℕ → Bool) (xs : List ℕ) → any_row p (sort_by (λ d. d) xs) ≡ any_row p xs
any_row-sort_by p [] = refl
any_row-sort_by p (x ∷ xs) =
    any_row-insert_by p x (sort_by (λ d. d) xs) ∙ rw (any_row-sort_by p xs) refl

any_row-rows_where :
    {A : Type 0} (p q : A → Bool) (xs : List A)
    → any_row p (rows_where q xs) ≡ true
    → any_row p xs ≡ true
any_row-rows_where p q [] h = h
any_row-rows_where p q (x ∷ xs) h = ground (arith, any_row-rows_where p q xs)

any_row-distinct :
    (p : ℕ → Bool) (xs : List ℕ) → any_row p (distinct xs) ≡ true → any_row p xs ≡ true
unfolding distinct
any_row-distinct p [] h = h
any_row-distinct p (x ∷ xs) h =
    ground (arith, any_row-distinct p xs, any_row-rows_where p (λ y. not (y == x)) (distinct xs))

any_row-map :
    (p : ℕ → Bool) (rows : List RateRow)
    → any_row p (map (λ r. r.as_of) rows) ≡ any_row (λ r. p r.as_of) rows
any_row-map p [] = refl
any_row-map p (r ∷ rows) = rw (any_row-map p rows) refl

any_row-published :
    (p : ℕ → Bool) (floor today : ℕ) (rows : List RateRow)
    → any_row p (published floor today rows) ≡ true
    → any_row (λ r. p r.as_of) rows ≡ true
unfolding published
any_row-published p floor today rows h =
    let held = rows_where (λ (r : RateRow). leb floor r.as_of && leb r.as_of today) rows in
    let days = map (λ (r : RateRow). r.as_of) held in
    any_row-rows_where (λ r. p r.as_of) _ rows
      (rw (any_row-map p held) at
        (any_row-distinct p days (rw (any_row-sort_by p (distinct days)) at h)))

any_row-snoc : (p : ℕ → Bool) (xs : List ℕ) (x : ℕ) → any_row p (xs ++ x ∷ []) ≡ any_row p xs || p x
any_row-snoc p [] x = ground arith
any_row-snoc p (y ∷ ys) x = ground (arith, any_row-snoc p ys x)

spanned_or_recent :
    (d before : ℕ) (days : List ℕ)
    → before ≤ d
    → any_row (λ x. ltb d x) days ≡ true
    → (any_row (spans d) (gaps_after before days) ≡ true)
      ⊎ (any_row (is_recent d) (before ∷ days) ≡ true)
unfolding gaps_after
spanned_or_recent d before [] h e = cc
spanned_or_recent d before (after ∷ days) h e = elim (Bool-cases (ltb d after)) [
  | inl hit ↦ elim (Bool-cases (ltb (stale_after_days + 1) (after - before))) [
    | inl wide ↦ elim (Bool-cases (is_recent d before)) [
      | inl near ↦ inr (rw near refl)
      | inr far ↦ inl (rw wide (ground arith))
    ]
    | inr narrow ↦ inr (ground arith)
  ]
  | inr miss ↦ elim (spanned_or_recent d after days (ground arith) (ground arith)) [
    | inl g ↦ inl (ground arith)
    | inr r ↦ inr (ground arith)
  ]
]

-- No day of the last year is overlooked. Each day from a year before today up to today lies in one
-- of the gaps that are to be filled, or a stored rate was published on it or in the week before,
-- or the day before the year began counts as that publication.
pub gaps-cover :
    (now d : ℕ) (db : FxDb)
    → iso_day now - history_days ≤ d
    → d ≤ iso_day now
    → (any_row (spans d) (gaps now db) ≡ true)
      ⊎ ((any_row (λ r. is_recent d r.as_of) db.rates ≡ true)
          ⊎ (is_recent d (iso_day now - history_days - 1) ≡ true))
unfolding gaps
gaps-cover now d db h k =
    let today = iso_day now in
    let floor = today - history_days in
    let days = published floor today db.rates in
    let later : any_row (λ x. ltb d x) (days ++ (today + 1) ∷ []) ≡ true =
      any_row-snoc (λ x. ltb d x) days (today + 1) ∙ ground arith in
    elim (spanned_or_recent d (floor - 1) (days ++ (today + 1) ∷ []) (omega arith) later) [
      | inl g ↦ inl g
      | inr r ↦ elim (Bool-cases (is_recent d (floor - 1))) [
        | inl edge ↦ inr (inr edge)
        | inr far ↦
            let seen : any_row (is_recent d) days ≡ true =
              ground (arith, any_row-snoc (is_recent d) days (today + 1)) in
            inr (inl (any_row-published (is_recent d) floor today db.rates seen))
      ]
    ]
