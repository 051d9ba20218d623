-- ===== src/Group/Balances/Settled.antt =====
-- What the settlement tests decide: they read the grouped query, and answer about plain sums.
use opensplit.Prelude.{
  ℕ, ◌≡◌, refl, sym, ◌∙◌, Bool, true, false, not, List, [], ◌∷◌, find_row, rows_where, any_row,
  ◌==◌, arith, Bool-cases, inl, inr, ◌↔◌,
}
use opensplit.Prelude.Int.{ℤ, pos, ◌+ℤ◌, int_laws}
use opensplit.Group.Tables.{Db}
use opensplit.Group.Balances.{
  Position, is_at, add_delta, group_deltas, is_zero, deltas, outstanding, position_of,
  balance_or_zero, is_settled, is_group_settled,
}
use opensplit.Group.Balances.Sums.{balance, sum_where-outstanding, zero-+ℤ}

abbrev pub has_at : ℕ → ℕ → List Position → Bool
has_at m c ps = any_row (is_at m c) ps

-- No member and currency has two positions.
abbrev pub Grouped : List Position → Type 0
Grouped [] = Unit
Grouped (p ∷ ps) = (has_at p.member_id p.currency ps ≡ false) × Grouped ps

has_at-add_delta_ne :
    (m c : ℕ) (d : Position) (ps : List Position)
    → is_at m c d ≡ false
    → has_at m c (add_delta d ps) ≡ has_at m c ps
unfolding add_delta
has_at-add_delta_ne m c d [] h = ground arith
has_at-add_delta_ne m c d (p ∷ ps) h = ground (arith, has_at-add_delta_ne m c d ps h)

add_delta-Grouped : (d : Position) (ps : List Position) → Grouped ps → Grouped (add_delta d ps)
unfolding add_delta
add_delta-Grouped d [] g = (refl, tt)
add_delta-Grouped d (p ∷ ps) g =
    ground (arith, add_delta-Grouped d ps g.1, has_at-add_delta_ne p.member_id p.currency d ps)

pub group_deltas-Grouped : (ds : List Position) → Grouped (group_deltas ds)
unfolding group_deltas
group_deltas-Grouped [] = tt
group_deltas-Grouped (d ∷ ds) = add_delta-Grouped d (group_deltas ds) (group_deltas-Grouped ds)

abbrev nonzero : Position → Bool
nonzero p = not (is_zero p.balance_minor)

has_at-rows_where :
    (m c : ℕ) (ps : List Position)
    → has_at m c ps ≡ false
    → has_at m c (rows_where nonzero ps) ≡ false
has_at-rows_where m c [] h = refl
has_at-rows_where m c (p ∷ ps) h = ground (arith, has_at-rows_where m c ps)

nonzero-Grouped : (ps : List Position) → Grouped ps → Grouped (rows_where nonzero ps)
nonzero-Grouped [] g = tt
nonzero-Grouped (p ∷ ps) g =
    ground (arith, nonzero-Grouped ps g.1, has_at-rows_where p.member_id p.currency ps g.0)

outstanding-Grouped : (s : Db) → Grouped (outstanding s)
unfolding outstanding
outstanding-Grouped s = nonzero-Grouped _ (group_deltas-Grouped (deltas s))

pub balance_missing :
    (m c : ℕ) (ps : List Position) → has_at m c ps ≡ false → balance m c ps ≡ pos 0
unfolding balance
balance_missing m c [] h = refl
balance_missing m c (p ∷ ps) h =
    let off : is_at m c p ≡ false = ground arith in
    rw (off, zero-+ℤ) (balance_missing m c ps (ground arith))

-- In a grouped list the position that is found is the whole balance.
pub balance_found :
    (m c : ℕ) (ps : List Position)
    → Grouped ps
    → balance m c ps ≡ balance_or_zero (find_row (is_at m c) ps)
unfolding balance
balance_found m c [] g = refl
balance_found m c (p ∷ ps) g = elim (Bool-cases (is_at m c p)) [
  | inl hit ↦
      let e : p.member_id ≡ m = ground arith in
      let e' : p.currency ≡ c = ground arith in
      rw (hit, balance_missing m c ps (rw (e, e') at g.0)) (omega int_laws)
  | inr miss ↦ rw (miss, zero-+ℤ) (balance_found m c ps g.1)
]

-- The position that is read at a member and a currency is the plain sum of what the live expenses
-- say of them.
pub position_of-eq-balance : (s : Db) (m c : ℕ) → position_of s m c ≡ balance m c (deltas s)
unfolding position_of balance
position_of-eq-balance s m c =
    sym (balance_found m c (outstanding s) (outstanding-Grouped s)) ∙ sum_where-outstanding _ s

abbrev has_member : ℕ → List Position → Bool
has_member m ps = any_row (λ p. p.member_id == m) ps

has_at_of_member : (m c : ℕ) (ps : List Position) → has_member m ps ≡ false → has_at m c ps ≡ false
has_at_of_member m c [] h = refl
has_at_of_member m c (p ∷ ps) h = ground (arith, has_at_of_member m c ps)

abbrev AllNonzero : List Position → Type 0
AllNonzero [] = Unit
AllNonzero (p ∷ ps) = (is_zero p.balance_minor ≡ false) × AllNonzero ps

rows_where-AllNonzero : (ps : List Position) → AllNonzero (rows_where nonzero ps)
rows_where-AllNonzero [] = tt
rows_where-AllNonzero (p ∷ ps) = ground (arith, rows_where-AllNonzero ps)

outstanding-AllNonzero : (s : Db) → AllNonzero (outstanding s)
unfolding outstanding
outstanding-AllNonzero s = rows_where-AllNonzero (group_deltas (deltas s))

+ℤ-zero : (b : ℤ) → b +ℤ pos 0 ≡ b
+ℤ-zero b = omega int_laws

add_zero_eq : (b : ℤ) → b +ℤ pos 0 ≡ pos 0 → is_zero b ≡ true
add_zero_eq b h = rw (sym (+ℤ-zero b) ∙ h) refl

has_member_of_balances :
    (m : ℕ) (ps : List Position)
    → Grouped ps
    → AllNonzero ps
    → ((c : ℕ) → balance m c ps ≡ pos 0)
    → has_member m ps ≡ false
unfolding balance
has_member_of_balances m [] g nz h = refl
has_member_of_balances m (p ∷ ps) g nz h = elim (Bool-cases (p.member_id == m)) [
  | inl hit ↦
      let e : p.member_id ≡ m = ground arith in
      let here : is_at m p.currency p ≡ true = ground arith in
      let rest = balance_missing m p.currency ps (rw e at g.0) in
      let z = add_zero_eq p.balance_minor (rw (here, rest) at (h p.currency)) in cc (nz.0, z)
  | inr miss ↦ rw miss (
      has_member_of_balances m ps g.1 nz.1
        (λ c. let off : is_at m c p ≡ false = ground arith in rw (off, zero-+ℤ) at (h c)))
]

balance-outstanding : (s : Db) (m c : ℕ) → balance m c (outstanding s) ≡ balance m c (deltas s)
unfolding balance
balance-outstanding s m c = sum_where-outstanding _ s

-- A member is settled exactly when, in every currency, what the live expenses say of them sums to
-- nothing.
pub is_settled_iff :
    (s : Db) (m : ℕ) → (is_settled s m ≡ true) ↔ ((c : ℕ) → balance m c (deltas s) ≡ pos 0)
unfolding is_settled
is_settled_iff s m = (
  λ h c.
      sym (balance-outstanding s m c)
      ∙ balance_missing m c (outstanding s) (has_at_of_member m c (outstanding s) (ground arith)),
  λ h.
      rw
        (has_member_of_balances m (outstanding s) (outstanding-Grouped s) (outstanding-AllNonzero s)
          (λ c. balance-outstanding s m c ∙ h c))
        refl,
)

-- The whole group is settled exactly when every member is.
pub is_group_settled_iff :
    (s : Db) → (is_group_settled s ≡ true) ↔ ((m : ℕ) → is_settled s m ≡ true)
unfolding is_group_settled is_settled
is_group_settled_iff s = go (outstanding s)
  where
    go :
        (ps : List Position)
        → ((elim ps [ [] ↦ true | _ ∷ _ ↦ false ]) ≡ true)
          ↔ ((m : ℕ) → not (has_member m ps) ≡ true)
    go [] = (λ h m. refl, λ h. refl)
    go (p ∷ ps) = (λ h m. cc, λ h. ground (arith, h p.member_id))
