-- ===== src/Group/Books/Rows.antt =====
-- The rows of an expense after a write of it, and those of the others.
use opensplit.Prelude.{
  ℕ, ◌≡◌, ◌≢◌, refl, Bool, false, List, [], ◌∷◌, map, All, any_row, ◌==◌, arith, inl, inr,
  Bool-cases,
}
use opensplit.Group.Schema.{EntryRow, EntryPayerRow, EntryShareRow, MoneyRow, Share}
use opensplit.Group.Tables.{Db}
use opensplit.Group.Entries.{payers_of, shares_of, sum_payers, sum_shares}
use opensplit.Group.Ledger.{upsert_entry, replace_payers, replace_shares}
use opensplit.Group.Frame.{with_entry}

abbrev pub has_entry : ℕ → List EntryRow → Bool
has_entry id es = any_row (λ e. e.id == id) es

-- No id is used twice.
abbrev pub Distinct : List EntryRow → Type 0
Distinct [] = Unit
Distinct (e ∷ es) = (has_entry e.id es ≡ false) × Distinct es

-- The payers and the shares of an entry both sum to its amount.
abbrev pub AddsUp : List EntryPayerRow → List EntryShareRow → EntryRow → Type 0
AddsUp payers shares e =
    (sum_payers (payers_of e.id payers) ≡ e.amount_minor)
    × (sum_shares (shares_of e.id shares) ≡ e.amount_minor)

pub record IsBalanced (s : Db) : Type 0 where
  pub distinct : Distinct s.entries
  pub sums : All (AddsUp s.entry_payers s.entry_shares) s.entries

payers_of-map :
    (id : ℕ) (ps : List MoneyRow)
    → payers_of id (map (λ p. record { entry_id = id; payer = p }) ps) ≡ ps
unfolding payers_of
payers_of-map id [] = refl
payers_of-map id (p ∷ ps) = ground (arith, payers_of-map id ps)

shares_of-map :
    (id : ℕ) (ps : List Share)
    → shares_of id (map (λ p. record { entry_id = id; share = p }) ps) ≡ ps
unfolding shares_of
shares_of-map id [] = refl
shares_of-map id (p ∷ ps) = ground (arith, shares_of-map id ps)

payers_of-map_ne :
    (id j : ℕ) (ps : List MoneyRow)
    → j ≢ id
    → payers_of j (map (λ p. record { entry_id = id; payer = p }) ps) ≡ []
unfolding payers_of
payers_of-map_ne id j [] h = refl
payers_of-map_ne id j (p ∷ ps) h = ground (arith, payers_of-map_ne id j ps h)

shares_of-map_ne :
    (id j : ℕ) (ps : List Share)
    → j ≢ id
    → shares_of j (map (λ p. record { entry_id = id; share = p }) ps) ≡ []
unfolding shares_of
shares_of-map_ne id j [] h = refl
shares_of-map_ne id j (p ∷ ps) h = ground (arith, shares_of-map_ne id j ps h)

pub payers_of-replace :
    (id : ℕ) (ps : List MoneyRow) (rows : List EntryPayerRow)
    → payers_of id (replace_payers id ps rows) ≡ ps
unfolding payers_of replace_payers
payers_of-replace id ps [] = payers_of-map id ps
payers_of-replace id ps (r ∷ rows) = ground (arith, payers_of-replace id ps rows)

pub shares_of-replace :
    (id : ℕ) (ps : List Share) (rows : List EntryShareRow)
    → shares_of id (replace_shares id ps rows) ≡ ps
unfolding shares_of replace_shares
shares_of-replace id ps [] = shares_of-map id ps
shares_of-replace id ps (r ∷ rows) = ground (arith, shares_of-replace id ps rows)

pub payers_of-replace_ne :
    (id j : ℕ) (ps : List MoneyRow) (rows : List EntryPayerRow)
    → j ≢ id
    → payers_of j (replace_payers id ps rows) ≡ payers_of j rows
unfolding payers_of replace_payers
payers_of-replace_ne id j ps [] h = payers_of-map_ne id j ps h
payers_of-replace_ne id j ps (r ∷ rows) h = ground (arith, payers_of-replace_ne id j ps rows h)

pub shares_of-replace_ne :
    (id j : ℕ) (ps : List Share) (rows : List EntryShareRow)
    → j ≢ id
    → shares_of j (replace_shares id ps rows) ≡ shares_of j rows
unfolding shares_of replace_shares
shares_of-replace_ne id j ps [] h = shares_of-map_ne id j ps h
shares_of-replace_ne id j ps (r ∷ rows) h = ground (arith, shares_of-replace_ne id j ps rows h)

has_entry-upsert_ne :
    (id : ℕ) (new : EntryRow) (es : List EntryRow)
    → id ≢ new.id
    → has_entry id (upsert_entry new es) ≡ has_entry id es
unfolding upsert_entry
has_entry-upsert_ne id new [] h = ground arith
has_entry-upsert_ne id new (e ∷ es) h = ground (arith, has_entry-upsert_ne id new es h)

pub upsert-Distinct :
    (new : EntryRow) (es : List EntryRow) → Distinct es → Distinct (upsert_entry new es)
unfolding upsert_entry
upsert-Distinct new [] h = (refl, tt)
upsert-Distinct new (e ∷ es) h =
    ground (arith, upsert-Distinct new es h.1, has_entry-upsert_ne e.id new es)

module _ (new : EntryRow) (ps : List MoneyRow) (ss : List Share) (payers : List EntryPayerRow)
    (shares : List EntryShareRow) where
  abbrev payers' : List EntryPayerRow
  payers' = replace_payers new.id ps payers

  abbrev shares' : List EntryShareRow
  shares' = replace_shares new.id ss shares

  AddsUp-other : (e : EntryRow) → e.id ≢ new.id → AddsUp payers shares e → AddsUp payers' shares' e
  AddsUp-other e h a =
      rw
        (payers_of-replace_ne new.id e.id ps payers h, shares_of-replace_ne new.id e.id ss shares h)
        a

  -- Entries of other ids keep their rows.
  AddsUp-others :
      (es : List EntryRow)
      → has_entry new.id es ≡ false
      → All (AddsUp payers shares) es
      → All (AddsUp payers' shares') es
  AddsUp-others [] h a = tt
  AddsUp-others (e ∷ es) h a =
      (AddsUp-other e (ground arith) a.0, AddsUp-others es (ground arith) a.1)

  module _ (p : sum_payers ps ≡ new.amount_minor) (q : sum_shares ss ≡ new.amount_minor) where
    AddsUp-new : AddsUp payers' shares' new
    AddsUp-new = rw (payers_of-replace new.id ps payers, shares_of-replace new.id ss shares) (p, q)

    upsert-AddsUp :
        (es : List EntryRow)
        → Distinct es
        → All (AddsUp payers shares) es
        → All (AddsUp payers' shares') (upsert_entry new es)
    unfolding upsert_entry
    upsert-AddsUp [] d a = (AddsUp-new, tt)
    upsert-AddsUp (e ∷ es) d a = elim (Bool-cases (e.id == new.id)) [
      | inl hit ↦
          let same_id : e.id ≡ new.id = ground arith in
          rw hit (AddsUp-new, AddsUp-others es (rw same_id at d.0) a.1)
      | inr miss ↦ rw miss (AddsUp-other e (ground arith) a.0, upsert-AddsUp es d.1 a.1)
    ]

-- A write of an expense that adds up keeps the books balanced.
pub with_entry-IsBalanced :
    (s : Db) (row : EntryRow) (payers : List MoneyRow) (shares : List Share)
    → sum_payers payers ≡ row.amount_minor
    → sum_shares shares ≡ row.amount_minor
    → IsBalanced s
    → IsBalanced (with_entry row payers shares s)
with_entry-IsBalanced s row payers shares p q h = record {
  distinct = upsert-Distinct row s.entries h.distinct;
  sums =
      upsert-AddsUp row payers shares s.entry_payers s.entry_shares p q s.entries h.distinct h.sums;
}
