-- ===== src/Group/Balances/Conservation.antt =====
-- In balanced books the positions of each currency cancel out.
use mathlib.Core.Path.{fun_ext, ap₂}
use opensplit.Prelude.{
  ℕ, ◌+◌, ◌≡◌, refl, sym, ◌∙◌, Bool, false, ◌&&◌, Option, none, some, List, [], ◌∷◌, All, is_none,
  ◌==◌, arith, if◌then◌else◌, Bool-cases, inl, inr,
}
use opensplit.Prelude.Int.{ℤ, pos, ◌+ℤ◌, neg, int_laws}
use opensplit.Group.Schema.{EntryRow, EntryPayerRow, EntryShareRow}
use opensplit.Group.Tables.{Db}
use opensplit.Group.Entries.{payers_of, shares_of, sum_payers, sum_shares}
use opensplit.Group.Books.Rows.{IsBalanced, Distinct, AddsUp, has_entry}
use opensplit.Group.Balances.{
  Position, live_entry, delta_of, payer_deltas, share_deltas, deltas, outstanding,
}
use opensplit.Group.Balances.Sums.{total, sum_where-append, sum_where-outstanding, zero-+ℤ}

abbrev pub counts_in : ℕ → EntryRow → Bool
counts_in c e = is_none e.deleted_at && e.currency == c

-- A figure of each live entry in a currency, added up.
unfoldable pub live_sum : ℕ → List EntryRow → (ℕ → ℕ) → ℕ
live_sum c [] f = 0
live_sum c (e ∷ es) f = (if counts_in c e then f e.id else 0) + live_sum c es f

-- What one row of payers or shares adds.
abbrev pub row_amount : ℕ → ℕ → Option EntryRow → ℕ
row_amount c amount none = 0
row_amount c amount (some e) = if e.currency == c then amount else 0

live_entry_missing :
    (es : List EntryRow) (id : ℕ) → has_entry id es ≡ false → live_entry es id ≡ none
unfolding live_entry
live_entry_missing [] id h = refl
live_entry_missing (e ∷ es) id h = ground (arith, live_entry_missing es id)

live_sum_missing :
    (c : ℕ) (es : List EntryRow) (id a : ℕ) (f : ℕ → ℕ)
    → has_entry id es ≡ false
    → live_sum c es (λ j. (if id == j then a else 0) + f j) ≡ live_sum c es f
unfolding live_sum
live_sum_missing c [] id a f h = refl
live_sum_missing c (e ∷ es) id a f h = ground (arith, live_sum_missing c es id a f)

-- A row adds to the figure of one entry at most.
pub live_sum_row :
    (c : ℕ) (es : List EntryRow) (id a : ℕ) (f : ℕ → ℕ)
    → Distinct es
    → live_sum c es (λ j. (if id == j then a else 0) + f j)
      ≡ row_amount c a (live_entry es id) + live_sum c es f
unfolding live_sum live_entry
live_sum_row c [] id a f d = refl
live_sum_row c (e ∷ es) id a f d = ground (
  arith,
  live_sum_row c es id a f d.1,
  live_entry_missing es e.id d.0,
  live_sum_missing c es e.id a f d.0,
)

pub live_sum_zero : (c : ℕ) (es : List EntryRow) → live_sum c es (λ j. 0) ≡ 0
unfolding live_sum
live_sum_zero c [] = refl
live_sum_zero c (e ∷ es) = ground (arith, live_sum_zero c es)

-- What the payers of a currency have paid, row by row, and what its shares owe.
paid : ℕ → List EntryRow → List EntryPayerRow → ℕ
paid c es [] = 0
paid c es (p ∷ ps) = row_amount c p.amount_minor (live_entry es p.entry_id) + paid c es ps

owed : ℕ → List EntryRow → List EntryShareRow → ℕ
owed c es [] = 0
owed c es (p ∷ ps) = row_amount c p.amount_minor (live_entry es p.entry_id) + owed c es ps

sum_payers_row :
    (p : EntryPayerRow) (ps : List EntryPayerRow) (j : ℕ)
    → sum_payers (payers_of j (p ∷ ps))
      ≡ (if p.entry_id == j then p.amount_minor else 0) + sum_payers (payers_of j ps)
unfolding payers_of sum_payers
sum_payers_row p ps j = ground arith

sum_shares_row :
    (p : EntryShareRow) (ps : List EntryShareRow) (j : ℕ)
    → sum_shares (shares_of j (p ∷ ps))
      ≡ (if p.entry_id == j then p.amount_minor else 0) + sum_shares (shares_of j ps)
unfolding shares_of sum_shares
sum_shares_row p ps j = ground arith

paid_by_entry :
    (c : ℕ) (es : List EntryRow) (ps : List EntryPayerRow)
    → Distinct es
    → paid c es ps ≡ live_sum c es (λ j. sum_payers (payers_of j ps))
unfolding paid
paid_by_entry c es [] d = unfold payers_of sum_payers in sym (live_sum_zero c es)
paid_by_entry c es (p ∷ ps) d =
    rw (fun_ext (sum_payers_row p ps), paid_by_entry c es ps d)
      (sym (live_sum_row c es p.entry_id p.amount_minor (λ j. sum_payers (payers_of j ps)) d))

owed_by_entry :
    (c : ℕ) (es : List EntryRow) (ps : List EntryShareRow)
    → Distinct es
    → owed c es ps ≡ live_sum c es (λ j. sum_shares (shares_of j ps))
unfolding owed
owed_by_entry c es [] d = unfold shares_of sum_shares in sym (live_sum_zero c es)
owed_by_entry c es (p ∷ ps) d =
    rw (fun_ext (sum_shares_row p ps), owed_by_entry c es ps d)
      (sym (live_sum_row c es p.entry_id p.amount_minor (λ j. sum_shares (shares_of j ps)) d))

live_sum_balanced :
    (c : ℕ) (es : List EntryRow) (payers : List EntryPayerRow) (shares : List EntryShareRow)
    → All (AddsUp payers shares) es
    → live_sum c es (λ j. sum_payers (payers_of j payers))
      ≡ live_sum c es (λ j. sum_shares (shares_of j shares))
unfolding live_sum
live_sum_balanced c [] payers shares a = refl
live_sum_balanced c (e ∷ es) payers shares a =
    ground (arith, live_sum_balanced c es payers shares a.1)

neg_zero : neg (pos 0) ≡ pos 0
neg_zero = omega int_laws

neg_add : (a b : ℕ) → neg (pos a) +ℤ neg (pos b) ≡ neg (pos (a + b))
neg_add a b = omega int_laws

pos_add : (a b : ℕ) → pos a +ℤ pos b ≡ pos (a + b)
pos_add a b = omega int_laws

-- What one joined row adds, for a payer and, negated, for a share.
total-delta_of :
    (sign : ℕ → ℤ) (c m a : ℕ) (o : Option EntryRow) (rest : List Position)
    → sign 0 ≡ pos 0
    → total c (delta_of m (sign a) o rest) ≡ sign (row_amount c a o) +ℤ total c rest
unfolding total
total-delta_of sign c m a none rest z = rw z (sym (zero-+ℤ _))
total-delta_of sign c m a (some e) rest z = elim (Bool-cases (e.currency == c)) [
  | inl t ↦ rw t
  | inr t ↦ rw (t, z)
]

total-payer_deltas :
    (c : ℕ) (es : List EntryRow) (ps : List EntryPayerRow)
    → total c (payer_deltas es ps) ≡ pos (paid c es ps)
unfolding paid payer_deltas
total-payer_deltas c es [] = unfold total in refl
total-payer_deltas c es (p ∷ ps) =
    total-delta_of pos c p.member_id p.amount_minor (live_entry es p.entry_id) _ refl
    ∙ rw (total-payer_deltas c es ps) (pos_add _ _)

total-share_deltas :
    (c : ℕ) (es : List EntryRow) (ps : List EntryShareRow)
    → total c (share_deltas es ps) ≡ neg (pos (owed c es ps))
unfolding owed share_deltas
total-share_deltas c es [] = unfold total in sym neg_zero
total-share_deltas c es (p ∷ ps) =
    total-delta_of (λ n. neg (pos n)) c p.member_id p.amount_minor (live_entry es p.entry_id) _
      neg_zero
    ∙ rw (total-share_deltas c es ps) (neg_add _ _)

cancel : (a b : ℕ) → a ≡ b → pos a +ℤ neg (pos b) ≡ pos 0
cancel a b e = omega int_laws

total-deltas : (c : ℕ) (s : Db) → IsBalanced s → total c (deltas s) ≡ pos 0
unfolding deltas total
total-deltas c s h =
    sum_where-append _ (payer_deltas s.entries s.entry_payers) _
    ∙ ap₂ ◌+ℤ◌ (total-payer_deltas c s.entries s.entry_payers)
        (total-share_deltas c s.entries s.entry_shares)
    ∙ cancel _ _ (
        paid_by_entry c s.entries s.entry_payers h.distinct
        ∙ live_sum_balanced c s.entries s.entry_payers s.entry_shares h.sums
        ∙ sym (owed_by_entry c s.entries s.entry_shares h.distinct))

-- In balanced books the open positions of each currency sum to zero: what some are owed is what
-- the others owe.
pub total-outstanding : (c : ℕ) (s : Db) → IsBalanced s → total c (outstanding s) ≡ pos 0
unfolding total
total-outstanding c s h = sum_where-outstanding _ s ∙ total-deltas c s h
