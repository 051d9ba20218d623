-- ===== src/Group/Departed/Change.antt =====
-- What one write of an expense (server/src/do/group/ledger.ts) changes of the sums that positions
-- are read from.
use opensplit.Prelude.{
  ℕ, ◌≡◌, refl, sym, ◌∙◌, ap, true, false, not, Option, none, some, List, [], ◌∷◌, find_row,
  rows_where, is_none, ◌==◌, arith, if◌then◌else◌, Bool-cases, inl, inr,
}
use opensplit.Prelude.Int.{ℤ, pos, ◌+ℤ◌, neg, int_laws}
use opensplit.Group.Schema.{EntryRow, EntryPayerRow, EntryShareRow, MoneyRow, Share}
use opensplit.Group.Balances.{Position, live_entry, delta_of, payer_deltas, share_deltas}
use opensplit.Group.Balances.Sums.{Test, sum_where, zero-+ℤ, +ℤ_assoc}
use opensplit.Group.Entries.{payers_of, shares_of}
use opensplit.Group.Ledger.{upsert_entry}
use opensplit.Group.Books.Rows.{has_entry, Distinct}

-- What a member's amount on an expense counts for, in the currency of one that counts.
abbrev pub single : Test → ℕ → ℤ → Option ℕ → ℤ
single f m d none = pos 0
single f m d (some currency) = if f m currency then d else pos 0

unfoldable pub credits : Test → Option ℕ → List MoneyRow → ℤ
credits f o [] = pos 0
credits f o (p ∷ ps) = single f p.member_id (pos p.amount_minor) o +ℤ credits f o ps

unfoldable pub debits : Test → Option ℕ → List Share → ℤ
debits f o [] = pos 0
debits f o (p ∷ ps) = single f p.member_id (neg (pos p.amount_minor)) o +ℤ debits f o ps

-- What a version of an expense adds to the sums that a test selects.
unfoldable pub worth : Test → Option ℕ → List MoneyRow → List Share → ℤ
unfolding credits debits
worth f o payers shares = credits f o payers +ℤ debits f o shares

abbrev pub currency_of : Option EntryRow → Option ℕ
currency_of none = none
currency_of (some e) = some e.currency

-- The currency in which a version counts, unless it is deleted.
abbrev pub counted_in : Option ℕ → ℕ → Option ℕ
counted_in none currency = some currency
counted_in (some at) currency = none

abbrev pub row_counted_in : Option EntryRow → Option ℕ
row_counted_in none = none
row_counted_in (some e) = counted_in e.deleted_at e.currency

live_entry_absent :
    (es : List EntryRow) (id : ℕ) → has_entry id es ≡ false → live_entry es id ≡ none
unfolding live_entry
live_entry_absent [] id h = refl
live_entry_absent (e ∷ es) id h = ground (arith, live_entry_absent es id)

counts :
    (e : EntryRow)
    → is_none e.deleted_at ≡ true
    → counted_in e.deleted_at e.currency ≡ some e.currency
counts e h = ground arith

not_counted :
    (e : EntryRow) → is_none e.deleted_at ≡ false → counted_in e.deleted_at e.currency ≡ none
not_counted e h = ground arith

pub live_currency :
    (es : List EntryRow) (id : ℕ)
    → Distinct es
    → currency_of (live_entry es id) ≡ row_counted_in (find_row (λ e. e.id == id) es)
unfolding live_entry
live_currency [] id d = refl
live_currency (e ∷ es) id d = elim (Bool-cases (e.id == id)) [
  | inl hit ↦
      let same_id : e.id ≡ id = ground arith in
      elim (Bool-cases (is_none e.deleted_at)) [
        | inl live ↦ rw (hit, live, counts e live) refl
        | inr gone ↦
            rw (hit, gone, not_counted e gone)
              (ap currency_of (live_entry_absent es id (rw same_id at d.0)))
      ]
  | inr miss ↦ rw miss (live_currency es id d.1)
]

live_entry-upsert_ne :
    (new : EntryRow) (es : List EntryRow) (j : ℕ)
    → (j == new.id) ≡ false
    → live_entry (upsert_entry new es) j ≡ live_entry es j
unfolding live_entry upsert_entry
live_entry-upsert_ne new [] j h = ground arith
live_entry-upsert_ne new (e ∷ es) j h = ground (arith, live_entry-upsert_ne new es j h)

sum_where-delta_of :
    (f : Test) (m : ℕ) (d : ℤ) (o : Option EntryRow) (rest : List Position)
    → sum_where f (delta_of m d o rest) ≡ single f m d (currency_of o) +ℤ sum_where f rest
unfolding sum_where
sum_where-delta_of f m d none rest = sym (zero-+ℤ _)
sum_where-delta_of f m d (some e) rest = refl

shuffle : (a b c : ℤ) → a +ℤ (b +ℤ c) ≡ b +ℤ (a +ℤ c)
shuffle a b c = omega int_laws

module _ (f : Test) where
  abbrev pub paid : List EntryRow → List EntryPayerRow → ℤ
  paid es rows = sum_where f (payer_deltas es rows)

  abbrev pub owed : List EntryRow → List EntryShareRow → ℤ
  owed es rows = sum_where f (share_deltas es rows)

  pub paid_cons :
      (es : List EntryRow) (r : EntryPayerRow) (rows : List EntryPayerRow)
      → paid es (r ∷ rows)
        ≡ single f r.member_id (pos r.amount_minor) (currency_of (live_entry es r.entry_id))
          +ℤ paid es rows
  unfolding payer_deltas
  paid_cons es r rows = sum_where-delta_of f _ _ (live_entry es r.entry_id) _

  pub owed_cons :
      (es : List EntryRow) (r : EntryShareRow) (rows : List EntryShareRow)
      → owed es (r ∷ rows)
        ≡ single f r.member_id (neg (pos r.amount_minor)) (currency_of (live_entry es r.entry_id))
          +ℤ owed es rows
  unfolding share_deltas
  owed_cons es r rows = sum_where-delta_of f _ _ (live_entry es r.entry_id) _

  abbrev pub payers_elsewhere : ℕ → List EntryPayerRow → List EntryPayerRow
  payers_elsewhere id rows = rows_where (λ r. not (r.entry_id == id)) rows

  abbrev pub shares_elsewhere : ℕ → List EntryShareRow → List EntryShareRow
  shares_elsewhere id rows = rows_where (λ r. not (r.entry_id == id)) rows

  -- The rows of one expense and those of the others.
  pub paid_split :
      (es : List EntryRow) (id : ℕ) (rows : List EntryPayerRow)
      → paid es rows
        ≡ paid es (payers_elsewhere id rows)
          +ℤ credits f (currency_of (live_entry es id)) (payers_of id rows)
  unfolding payers_of credits payer_deltas sum_where
  paid_split es id [] = omega int_laws
  paid_split es id (r ∷ rows) = paid_cons es r rows ∙ elim (Bool-cases (r.entry_id == id)) [
    | inl hit ↦
        let same_id : r.entry_id ≡ id = ground arith in
        rw (hit, same_id, paid_split es id rows) (shuffle _ _ _)
    | inr miss ↦
        rw (miss, paid_split es id rows, paid_cons es r (payers_elsewhere id rows))
          (sym (+ℤ_assoc _ _ _))
  ]

  pub owed_split :
      (es : List EntryRow) (id : ℕ) (rows : List EntryShareRow)
      → owed es rows
        ≡ owed es (shares_elsewhere id rows)
          +ℤ debits f (currency_of (live_entry es id)) (shares_of id rows)
  unfolding shares_of debits share_deltas sum_where
  owed_split es id [] = omega int_laws
  owed_split es id (r ∷ rows) = owed_cons es r rows ∙ elim (Bool-cases (r.entry_id == id)) [
    | inl hit ↦
        let same_id : r.entry_id ≡ id = ground arith in
        rw (hit, same_id, owed_split es id rows) (shuffle _ _ _)
    | inr miss ↦
        rw (miss, owed_split es id rows, owed_cons es r (shares_elsewhere id rows))
          (sym (+ℤ_assoc _ _ _))
  ]

  -- The others' rows count as before.
  pub paid_elsewhere :
      (new : EntryRow) (es : List EntryRow) (rows : List EntryPayerRow)
      → paid (upsert_entry new es) (payers_elsewhere new.id rows)
        ≡ paid es (payers_elsewhere new.id rows)
  unfolding payer_deltas
  paid_elsewhere new es [] = refl
  paid_elsewhere new es (r ∷ rows) = elim (Bool-cases (r.entry_id == new.id)) [
    | inl hit ↦ rw hit (paid_elsewhere new es rows)
    | inr miss ↦
        rw
          (
            miss,
            paid_cons (upsert_entry new es) r (payers_elsewhere new.id rows),
            paid_cons es r (payers_elsewhere new.id rows),
            live_entry-upsert_ne new es r.entry_id miss,
            paid_elsewhere new es rows,
          )
          refl
  ]

  pub owed_elsewhere :
      (new : EntryRow) (es : List EntryRow) (rows : List EntryShareRow)
      → owed (upsert_entry new es) (shares_elsewhere new.id rows)
        ≡ owed es (shares_elsewhere new.id rows)
  unfolding share_deltas
  owed_elsewhere new es [] = refl
  owed_elsewhere new es (r ∷ rows) = elim (Bool-cases (r.entry_id == new.id)) [
    | inl hit ↦ rw hit (owed_elsewhere new es rows)
    | inr miss ↦
        rw
          (
            miss,
            owed_cons (upsert_entry new es) r (shares_elsewhere new.id rows),
            owed_cons es r (shares_elsewhere new.id rows),
            live_entry-upsert_ne new es r.entry_id miss,
            owed_elsewhere new es rows,
          )
          refl
  ]
