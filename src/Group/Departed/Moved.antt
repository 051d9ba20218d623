-- ===== src/Group/Departed/Moved.antt =====
-- server/src/do/group/ledger.ts, `assertDepartedOnlySettle`: what `moved` adds up to for somebody who
-- has left, and what the test of it decides.
use opensplit.Prelude.{
  ℕ, ◌≡◌, refl, sym, ◌∙◌, ap, Bool, true, false, ◌&&◌, ◌||◌, Option, none, some, List, [], ◌∷◌,
  ◌==◌, if◌then◌else◌, arith, Bool-cases, inl, inr,
}
use opensplit.Prelude.Int.{ℤ, pos, negsuc, ◌+ℤ◌, neg, ◌≤ℤ◌, int_laws}
use opensplit.Group.Schema.{MemberRow, MoneyRow, Share}
use opensplit.Group.Balances.{Position, is_at, is_zero}
use opensplit.Group.Balances.Sums.{Test, sum_where, balance, sum_where-append, zero-+ℤ}
use opensplit.Group.Balances.Settled.{Grouped, balance_missing}
use opensplit.Group.Departed.{
  has_departed, signed, moved_by_payers, moved_by_shares, moved_by, settles, only_settles,
}
use opensplit.Group.Departed.Change.{single, credits, debits, worth, counted_in}

signed_zero : (plus : Bool) → signed plus (pos 0) ≡ pos 0
unfolding neg
signed_zero true = refl
signed_zero false = refl

signed-+ℤ : (plus : Bool) (a b : ℤ) → signed plus (a +ℤ b) ≡ signed plus a +ℤ signed plus b
signed-+ℤ true a b = refl
signed-+ℤ false a b = omega int_laws

-- Where the test passes over whom it does not select, taking only those who have left loses nothing.
module _ (gone : List MemberRow) (f : Test)
    (only : (m c : ℕ) → f m c ≡ true → has_departed gone m ≡ true) where
  signed-single :
      (plus : Bool) (m c : ℕ) (d : ℤ)
      → (if f m c then signed plus d else pos 0) ≡ signed plus (single f m d (some c))
  signed-single plus m c d = elim (Bool-cases (f m c)) [
    | inl hit ↦ rw hit refl
    | inr miss ↦ rw miss (sym (signed_zero plus))
  ]

  not_selected : (m c : ℕ) → has_departed gone m ≡ false → f m c ≡ false
  not_selected m c stays = elim (Bool-cases (f m c)) [
    | inl hit ↦ let e : true ≡ false = sym (only m c hit) ∙ stays in cc
    | inr miss ↦ miss
  ]

  sum_where-moved_by_payers :
      (plus : Bool) (c : ℕ) (ps : List MoneyRow)
      → sum_where f (moved_by_payers gone plus c ps) ≡ signed plus (credits f (some c) ps)
  unfolding moved_by_payers sum_where credits
  sum_where-moved_by_payers plus c [] = sym (signed_zero plus)
  sum_where-moved_by_payers plus c (p ∷ ps) = elim (Bool-cases (has_departed gone p.member_id)) [
    | inl left ↦
        rw
          (
            left,
            signed-single plus p.member_id c (pos p.amount_minor),
            sum_where-moved_by_payers plus c ps,
          )
          (sym (signed-+ℤ plus _ _))
    | inr stays ↦
        rw (stays, not_selected p.member_id c stays, zero-+ℤ, sum_where-moved_by_payers plus c ps)
          refl
  ]

  sum_where-moved_by_shares :
      (plus : Bool) (c : ℕ) (ps : List Share)
      → sum_where f (moved_by_shares gone plus c ps) ≡ signed plus (debits f (some c) ps)
  unfolding moved_by_shares sum_where debits
  sum_where-moved_by_shares plus c [] = sym (signed_zero plus)
  sum_where-moved_by_shares plus c (p ∷ ps) = elim (Bool-cases (has_departed gone p.member_id)) [
    | inl left ↦
        rw
          (
            left,
            signed-single plus p.member_id c (neg (pos p.amount_minor)),
            sum_where-moved_by_shares plus c ps,
          )
          (sym (signed-+ℤ plus _ _))
    | inr stays ↦
        rw (stays, not_selected p.member_id c stays, zero-+ℤ, sum_where-moved_by_shares plus c ps)
          refl
  ]

  pub nothing : (payers : List MoneyRow) (shares : List Share) → worth f none payers shares ≡ pos 0
  unfolding worth credits debits
  nothing [] [] = zero-+ℤ (pos 0)
  nothing [] (s ∷ shares) = rw zero-+ℤ (nothing [] shares)
  nothing (p ∷ payers) shares = rw zero-+ℤ (nothing payers shares)

  pub sum_where-moved_by :
      (plus : Bool) (deleted : Option ℕ) (c : ℕ) (payers : List MoneyRow) (shares : List Share)
      → sum_where f (moved_by gone plus deleted c payers shares)
        ≡ signed plus (worth f (counted_in deleted c) payers shares)
  unfolding moved_by worth sum_where
  sum_where-moved_by plus (some at) c payers shares =
      sym (ap (signed plus) (nothing payers shares) ∙ signed_zero plus)
  sum_where-moved_by plus none c payers shares =
      sum_where-append f (moved_by_payers gone plus c payers) (moved_by_shares gone plus c shares)
      ∙ rw (sum_where-moved_by_payers plus c payers, sum_where-moved_by_shares plus c shares)
          (sym (signed-+ℤ plus _ _))

-- A balance stays, or moves toward zero: it keeps its side, and its size does not grow.
pub data TowardZero (before after : ℤ) : Type 0 where
  unmoved : after ≡ before → TowardZero before after
  owed_less : pos 0 ≤ℤ after → after ≤ℤ before → TowardZero before after
  owes_less : before ≤ℤ after → after ≤ℤ pos 0 → TowardZero before after

settles-TowardZero : (before after : ℤ) → settles before after ≡ true → TowardZero before after
unfolding settles neg
settles-TowardZero (pos b) (pos a) h = owed_less (omega arith) (ground arith)
settles-TowardZero (pos b) (negsuc a) h = elim (Bool-cases (b == 0)) [
  | inl z ↦ let e : false ≡ true = rw z at h in cc
  | inr nz ↦ let e : false ≡ true = rw nz at h in cc
]
settles-TowardZero (negsuc b) (pos a) h = owes_less (ground arith) (ground arith)
settles-TowardZero (negsuc b) (negsuc a) h = owes_less (ground arith) (omega arith)

zero_change : (before d : ℤ) → is_zero d ≡ true → before +ℤ d ≡ before
zero_change before (pos n) h = let e : n ≡ 0 = ground arith in rw e (omega int_laws)
zero_change before (negsuc n) h = cc

decided :
    (before d : ℤ)
    → is_zero d || settles before (before +ℤ d) ≡ true
    → TowardZero before (before +ℤ d)
decided before d h = elim (Bool-cases (is_zero d)) [
  | inl still ↦ unmoved (zero_change before d still)
  | inr moves ↦ settles-TowardZero before (before +ℤ d) (rw moves at h)
]

both_first : (a b : Bool) → a && b ≡ true → a ≡ true
both_first a b h = ground arith

both_second : (a b : Bool) → a && b ≡ true → b ≡ true
both_second a b h = ground arith

+ℤ-zero : (a : ℤ) → a +ℤ pos 0 ≡ a
+ℤ-zero a = omega int_laws

-- The loop over a grouped list decides for each member and currency.
pub only_settles-TowardZero :
    (held : ℕ → ℕ → ℤ) (ps : List Position) (m c : ℕ)
    → Grouped ps
    → only_settles held ps ≡ true
    → TowardZero (held m c) (held m c +ℤ balance m c ps)
unfolding only_settles balance
only_settles-TowardZero held [] m c g h = unmoved (+ℤ-zero (held m c))
only_settles-TowardZero held (p ∷ ps) m c g h = elim (Bool-cases (is_at m c p)) [
  | inl hit ↦
      let same_member : p.member_id ≡ m = ground arith in
      let same_currency : p.currency ≡ c = ground arith in
      let rest : balance m c ps ≡ pos 0 =
        balance_missing m c ps (rw (same_member, same_currency) at g.0) in
      let before = held p.member_id p.currency in
      let first =
        both_first (is_zero p.balance_minor || settles before (before +ℤ p.balance_minor))
          (only_settles held ps) h in
      let here : is_zero p.balance_minor || settles (held m c) (held m c +ℤ p.balance_minor)
          ≡ true =
        rw (same_member, same_currency) at first in
      rw (hit, rest, +ℤ-zero) (decided (held m c) p.balance_minor here)
  | inr miss ↦ rw (miss, zero-+ℤ) (only_settles-TowardZero held ps m c g.1 (both_second _ _ h))
]
