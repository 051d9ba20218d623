-- ===== src/Group/Balances/ByExpense.antt =====
-- What the settlement tests of server/src/do/group/balances.ts decide, and what the positions are,
-- from the expenses one by one.
use mathlib.Core.Path.{ap₂}
use opensplit.Prelude.{
  ℕ, ◌+◌, ◌≡◌, refl, sym, ◌∙◌, true, ◌&&◌, Option, none, some, List, [], ◌∷◌, is_none, ◌==◌,
  if◌then◌else◌, Bool-cases, inl, inr, ◌↔◌,
}
use opensplit.Prelude.Int.{ℤ, pos, ◌+ℤ◌, neg, int_laws}
use opensplit.Group.Schema.{EntryRow, EntryPayerRow, EntryShareRow}
use opensplit.Group.Tables.{Db}
use opensplit.Group.Books.Rows.{Distinct}
use opensplit.Group.Balances.{
  Position, live_entry, delta_of, payer_deltas, share_deltas, deltas, position_of, is_settled,
  is_group_settled,
}
use opensplit.Group.Balances.Sums.{balance, sum_where-append, zero-+ℤ}
use opensplit.Group.Balances.Settled.{position_of-eq-balance, is_settled_iff, is_group_settled_iff}
use opensplit.Group.Balances.Conservation.{
  counts_in, live_sum, live_sum_row, live_sum_zero, row_amount,
}

-- What a member pays of an expense, by its id, and what their shares of it come to.
unfoldable pub paid_by : ℕ → ℕ → List EntryPayerRow → ℕ
paid_by m id [] = 0
paid_by m id (p ∷ ps) =
    (if p.entry_id == id then (if p.member_id == m then p.amount_minor else 0) else 0)
    + paid_by m id ps

unfoldable pub owed_by : ℕ → ℕ → List EntryShareRow → ℕ
owed_by m id [] = 0
owed_by m id (p ∷ ps) =
    (if p.entry_id == id then (if p.member_id == m then p.amount_minor else 0) else 0)
    + owed_by m id ps

-- What a member is owed for one expense: what they paid less what they owe.
abbrev pub net_of : Db → ℕ → EntryRow → ℤ
net_of s m e = pos (paid_by m e.id s.entry_payers) +ℤ neg (pos (owed_by m e.id s.entry_shares))

-- The same for all the expenses of a currency that are not deleted.
unfoldable pub net : Db → ℕ → ℕ → List EntryRow → ℤ
unfolding paid_by owed_by
net s m c [] = pos 0
net s m c (e ∷ es) =
    (if is_none e.deleted_at && e.currency == c then net_of s m e else pos 0) +ℤ net s m c es

-- The rows of a member, as the query joins them.
paid : ℕ → ℕ → List EntryRow → List EntryPayerRow → ℕ
paid m c es [] = 0
paid m c es (p ∷ ps) =
    row_amount c (if p.member_id == m then p.amount_minor else 0) (live_entry es p.entry_id)
    + paid m c es ps

owed : ℕ → ℕ → List EntryRow → List EntryShareRow → ℕ
owed m c es [] = 0
owed m c es (p ∷ ps) =
    row_amount c (if p.member_id == m then p.amount_minor else 0) (live_entry es p.entry_id)
    + owed m c es ps

paid_by_entry :
    (m c : ℕ) (es : List EntryRow) (ps : List EntryPayerRow)
    → Distinct es
    → paid m c es ps ≡ live_sum c es (λ j. paid_by m j ps)
unfolding paid paid_by
paid_by_entry m c es [] d = sym (live_sum_zero c es)
paid_by_entry m c es (p ∷ ps) d =
    rw (paid_by_entry m c es ps d) (sym (live_sum_row c es p.entry_id _ (λ j. paid_by m j ps) d))

owed_by_entry :
    (m c : ℕ) (es : List EntryRow) (ps : List EntryShareRow)
    → Distinct es
    → owed m c es ps ≡ live_sum c es (λ j. owed_by m j ps)
unfolding owed owed_by
owed_by_entry m c es [] d = sym (live_sum_zero c es)
owed_by_entry m c es (p ∷ ps) d =
    rw (owed_by_entry m c es ps d) (sym (live_sum_row c es p.entry_id _ (λ j. owed_by m j ps) d))

-- What one joined row adds to a member, for a payer and, negated, for a share.
balance-delta_of :
    (sign : ℕ → ℤ) (m c n a : ℕ) (o : Option EntryRow) (rest : List Position)
    → sign 0 ≡ pos 0
    → balance m c (delta_of n (sign a) o rest)
      ≡ sign (row_amount c (if n == m then a else 0) o) +ℤ balance m c rest
unfolding balance
balance-delta_of sign m c n a none rest z = rw z (sym (zero-+ℤ _))
balance-delta_of sign m c n a (some e) rest z = elim (Bool-cases (n == m)) [
  | inl hit ↦ elim (Bool-cases (e.currency == c)) [ inl t ↦ rw (hit, t) | inr t ↦ rw (hit, t, z) ]
  | inr miss ↦ elim (Bool-cases (e.currency == c)) [
    | inl t ↦ rw (miss, t, z)
    | inr t ↦ rw (miss, t, z)
  ]
]

pos_add : (a b : ℕ) → pos a +ℤ pos b ≡ pos (a + b)
pos_add a b = omega int_laws

neg_zero : neg (pos 0) ≡ pos 0
neg_zero = omega int_laws

neg_add : (a b : ℕ) → neg (pos a) +ℤ neg (pos b) ≡ neg (pos (a + b))
neg_add a b = omega int_laws

balance-payer_deltas :
    (m c : ℕ) (es : List EntryRow) (ps : List EntryPayerRow)
    → balance m c (payer_deltas es ps) ≡ pos (paid m c es ps)
unfolding paid payer_deltas
balance-payer_deltas m c es [] = unfold balance in refl
balance-payer_deltas m c es (p ∷ ps) =
    balance-delta_of pos m c p.member_id p.amount_minor (live_entry es p.entry_id) _ refl
    ∙ rw (balance-payer_deltas m c es ps) (pos_add _ _)

balance-share_deltas :
    (m c : ℕ) (es : List EntryRow) (ps : List EntryShareRow)
    → balance m c (share_deltas es ps) ≡ neg (pos (owed m c es ps))
unfolding owed share_deltas
balance-share_deltas m c es [] = unfold balance in sym neg_zero
balance-share_deltas m c es (p ∷ ps) =
    balance-delta_of (λ n. neg (pos n)) m c p.member_id p.amount_minor (live_entry es p.entry_id) _
      neg_zero
    ∙ rw (balance-share_deltas m c es ps) (neg_add _ _)

regroup :
    (a b x y : ℕ)
    → pos (a + x) +ℤ neg (pos (b + y)) ≡ pos a +ℤ neg (pos b) +ℤ (pos x +ℤ neg (pos y))
regroup a b x y = omega int_laws

net-live_sum :
    (s : Db) (m c : ℕ) (es : List EntryRow)
    → pos (live_sum c es (λ j. paid_by m j s.entry_payers))
        +ℤ neg (pos (live_sum c es (λ j. owed_by m j s.entry_shares)))
      ≡ net s m c es
unfolding live_sum net
net-live_sum s m c [] = omega int_laws
net-live_sum s m c (e ∷ es) = regroup _ _ _ _ ∙ elim (Bool-cases (counts_in c e)) [
  | inl t ↦ rw (t, net-live_sum s m c es) refl
  | inr t ↦ rw (t, net-live_sum s m c es, neg_zero, zero-+ℤ) refl
]

balance-deltas :
    (s : Db) (m c : ℕ) → Distinct s.entries → balance m c (deltas s) ≡ net s m c s.entries
unfolding deltas balance
balance-deltas s m c d =
    sum_where-append _ (payer_deltas s.entries s.entry_payers) _
    ∙ ap₂ ◌+ℤ◌ (balance-payer_deltas m c s.entries s.entry_payers)
        (balance-share_deltas m c s.entries s.entry_shares)
    ∙ rw
        (paid_by_entry m c s.entries s.entry_payers d, owed_by_entry m c s.entries s.entry_shares d)
        (net-live_sum s m c s.entries)

-- Where the ids of entries are distinct, the position that is read at a member and a currency is
-- what the member paid less what they owe, over each expense of the currency that is not deleted.
pub position_of-net :
    (s : Db) (m c : ℕ) → Distinct s.entries → position_of s m c ≡ net s m c s.entries
position_of-net s m c d = position_of-eq-balance s m c ∙ balance-deltas s m c d

-- Where the ids of entries are distinct, a member is settled exactly when, in every currency, what
-- they paid less what they owe over the expenses that are not deleted is nothing.
pub is_settled-net :
    (s : Db) (m : ℕ)
    → Distinct s.entries
    → (is_settled s m ≡ true) ↔ ((c : ℕ) → net s m c s.entries ≡ pos 0)
is_settled-net s m d = (
  λ h c. sym (balance-deltas s m c d) ∙ (is_settled_iff s m).0 h c,
  λ h. (is_settled_iff s m).1 (λ c. balance-deltas s m c d ∙ h c),
)

-- Where the ids of entries are distinct, the whole group is settled exactly when, for every member
-- and currency, what they paid less what they owe over the expenses that are not deleted is nothing.
pub is_group_settled-net :
    (s : Db)
    → Distinct s.entries
    → (is_group_settled s ≡ true) ↔ ((m c : ℕ) → net s m c s.entries ≡ pos 0)
is_group_settled-net s d = (
  λ h m. (is_settled-net s m d).0 ((is_group_settled_iff s).0 h m),
  λ h. (is_group_settled_iff s).1 (λ m. (is_settled-net s m d).1 (h m)),
)
