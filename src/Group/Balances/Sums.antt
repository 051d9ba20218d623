-- ===== src/Group/Balances/Sums.antt =====
-- Sums over positions, as the specification of the query `positions`: what one member holds in one
-- currency, and what all hold together.
use opensplit.Prelude.{
  ℕ, ◌≡◌, refl, sym, ◌∙◌, ap, Bool, true, ◌&&◌, not, List, [], ◌∷◌, ◌++◌, rows_where, ◌==◌, arith,
  if◌then◌else◌, Bool-cases, inl, inr,
}
use opensplit.Prelude.Int.{ℤ, pos, ◌+ℤ◌, int_laws}
use opensplit.Group.Tables.{Db}
use opensplit.Group.Balances.{
  Position, is_at, add_delta, group_deltas, is_zero, deltas, outstanding,
}

abbrev pub Test : Type 0
Test = ℕ → ℕ → Bool

abbrev pub picked : Test → Position → ℤ
picked f p = if f p.member_id p.currency then p.balance_minor else pos 0

-- The sum of the balances at the members and currencies that a test selects.
unfoldable pub sum_where : Test → List Position → ℤ
sum_where f [] = pos 0
sum_where f (p ∷ ps) = picked f p +ℤ sum_where f ps

-- What one member holds in one currency.
unfoldable pub balance : ℕ → ℕ → List Position → ℤ
unfolding sum_where
balance m c ps = sum_where (λ n d. n == m && d == c) ps

-- What all members hold together in one currency.
unfoldable pub total : ℕ → List Position → ℤ
unfolding sum_where
total c ps = sum_where (λ n d. d == c) ps

pub +ℤ_assoc : (a b c : ℤ) → a +ℤ b +ℤ c ≡ a +ℤ (b +ℤ c)
+ℤ_assoc a b c = omega int_laws

pub zero-+ℤ : (a : ℤ) → pos 0 +ℤ a ≡ a
zero-+ℤ a = omega int_laws

pub sum_where-append :
    (f : Test) (ps qs : List Position) → sum_where f (ps ++ qs) ≡ sum_where f ps +ℤ sum_where f qs
unfolding sum_where
sum_where-append f [] qs = sym (zero-+ℤ _)
sum_where-append f (p ∷ ps) qs = rw (sum_where-append f ps qs) (sym (+ℤ_assoc _ _ _))

picked_zero : (f : Test) (p : Position) → is_zero p.balance_minor ≡ true → picked f p ≡ pos 0
picked_zero f p z = ground arith

sum_where-nonzero :
    (f : Test) (ps : List Position)
    → sum_where f (rows_where (λ p. not (is_zero p.balance_minor)) ps) ≡ sum_where f ps
unfolding sum_where
sum_where-nonzero f [] = refl
sum_where-nonzero f (p ∷ ps) = elim (Bool-cases (is_zero p.balance_minor)) [
  | inl z ↦ rw (z, picked_zero f p z, zero-+ℤ) (sum_where-nonzero f ps)
  | inr nz ↦ rw nz (ap (◌+ℤ◌ (picked f p)) (sum_where-nonzero f ps))
]

picked_add :
    (f : Test) (d p : Position)
    → is_at d.member_id d.currency p ≡ true
    → picked f (record p { balance_minor = d.balance_minor +ℤ p.balance_minor })
      ≡ picked f d +ℤ picked f p
picked_add f d p h =
    let e : p.member_id ≡ d.member_id = ground arith in
    let e' : p.currency ≡ d.currency = ground arith in
    rw (e, e')
      (elim (Bool-cases (f d.member_id d.currency)) [
        | inl t ↦ rw t
        | inr t ↦ rw t (omega int_laws)
      ])

swap_front : (a b c : ℤ) → a +ℤ (b +ℤ c) ≡ b +ℤ (a +ℤ c)
swap_front a b c = omega int_laws

sum_where-add_delta :
    (f : Test) (d : Position) (ps : List Position)
    → sum_where f (add_delta d ps) ≡ picked f d +ℤ sum_where f ps
unfolding sum_where add_delta
sum_where-add_delta f d [] = refl
sum_where-add_delta f d (p ∷ ps) = elim (Bool-cases (is_at d.member_id d.currency p)) [
  | inl hit ↦ rw (hit, picked_add f d p hit) (+ℤ_assoc _ _ _)
  | inr miss ↦ rw (miss, sum_where-add_delta f d ps) (swap_front _ _ _)
]

pub sum_where-group_deltas :
    (f : Test) (ds : List Position) → sum_where f (group_deltas ds) ≡ sum_where f ds
unfolding sum_where group_deltas
sum_where-group_deltas f [] = refl
sum_where-group_deltas f (d ∷ ds) =
    sum_where-add_delta f d (group_deltas ds) ∙ ap (◌+ℤ◌ (picked f d)) (sum_where-group_deltas f ds)

-- Grouping the deltas and dropping the zeros changes no sum.
pub sum_where-outstanding :
    (f : Test) (s : Db) → sum_where f (outstanding s) ≡ sum_where f (deltas s)
unfolding outstanding
sum_where-outstanding f s =
    sum_where-nonzero f (group_deltas (deltas s)) ∙ sum_where-group_deltas f (deltas s)
