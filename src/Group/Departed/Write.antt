-- ===== src/Group/Departed/Write.antt =====
-- The sums after a write of an expense (server/src/do/group/ledger.ts), by what the stored version
-- and the one written are worth.
use opensplit.Prelude.{ℕ, ◌≡◌, refl, ◌∙◌, ap, List, [], ◌∷◌, ◌++◌, map, find_row, ◌==◌}
use opensplit.Prelude.Int.{◌+ℤ◌, int_laws}
use opensplit.Group.Schema.{EntryRow, EntryPayerRow, EntryShareRow, MoneyRow, Share}
use opensplit.Group.Tables.{Db}
use opensplit.Group.Balances.{live_entry, payer_deltas, share_deltas, deltas}
use opensplit.Group.Balances.Sums.{Test, sum_where, sum_where-append}
use opensplit.Group.Entries.{payers_of, shares_of}
use opensplit.Group.Ledger.{upsert_entry, replace_payers, replace_shares}
use opensplit.Group.Ledger.Stored.{found_after_upsert}
use opensplit.Group.Books.Rows.{Distinct, upsert-Distinct}
use opensplit.Group.Frame.{with_entry}
use opensplit.Group.Departed.Change.{
  credits, debits, worth, currency_of, counted_in, row_counted_in, live_currency, paid, owed,
  paid_cons, owed_cons, paid_split, owed_split, paid_elsewhere, owed_elsewhere, payers_elsewhere,
  shares_elsewhere,
}

module _ (f : Test) where
  paid-append :
      (es : List EntryRow) (xs ys : List EntryPayerRow)
      → paid f es (xs ++ ys) ≡ paid f es xs +ℤ paid f es ys
  unfolding payer_deltas sum_where
  paid-append es [] ys = omega int_laws
  paid-append es (x ∷ xs) ys =
      paid_cons f es x (xs ++ ys) ∙ rw (paid-append es xs ys, paid_cons f es x xs) (omega int_laws)

  owed-append :
      (es : List EntryRow) (xs ys : List EntryShareRow)
      → owed f es (xs ++ ys) ≡ owed f es xs +ℤ owed f es ys
  unfolding share_deltas sum_where
  owed-append es [] ys = omega int_laws
  owed-append es (x ∷ xs) ys =
      owed_cons f es x (xs ++ ys) ∙ rw (owed-append es xs ys, owed_cons f es x xs) (omega int_laws)

  paid-new :
      (es : List EntryRow) (id : ℕ) (ps : List MoneyRow)
      → paid f es (map (λ p. record { entry_id = id; payer = p }) ps)
        ≡ credits f (currency_of (live_entry es id)) ps
  unfolding payer_deltas sum_where credits
  paid-new es id [] = refl
  paid-new es id (p ∷ ps) = paid_cons f es _ _ ∙ rw (paid-new es id ps) refl

  owed-new :
      (es : List EntryRow) (id : ℕ) (ps : List Share)
      → owed f es (map (λ p. record { entry_id = id; share = p }) ps)
        ≡ debits f (currency_of (live_entry es id)) ps
  unfolding share_deltas sum_where debits
  owed-new es id [] = refl
  owed-new es id (p ∷ ps) =
      owed_cons f es (record { entry_id = id; share = p }) _ ∙ rw (owed-new es id ps) refl

  sum_where-deltas :
      (s : Db)
      → sum_where f (deltas s) ≡ paid f s.entries s.entry_payers +ℤ owed f s.entries s.entry_shares
  unfolding deltas
  sum_where-deltas s = sum_where-append f _ _

  paid_after :
      (new : EntryRow) (es : List EntryRow) (ps : List MoneyRow) (rows : List EntryPayerRow)
      → paid f (upsert_entry new es) (replace_payers new.id ps rows)
        ≡ paid f es (payers_elsewhere f new.id rows)
          +ℤ credits f (currency_of (live_entry (upsert_entry new es) new.id)) ps
  unfolding replace_payers
  paid_after new es ps rows =
      paid-append (upsert_entry new es) (payers_elsewhere f new.id rows) _
      ∙ rw (paid_elsewhere f new es rows, paid-new (upsert_entry new es) new.id ps) refl

  owed_after :
      (new : EntryRow) (es : List EntryRow) (ps : List Share) (rows : List EntryShareRow)
      → owed f (upsert_entry new es) (replace_shares new.id ps rows)
        ≡ owed f es (shares_elsewhere f new.id rows)
          +ℤ debits f (currency_of (live_entry (upsert_entry new es) new.id)) ps
  unfolding replace_shares
  owed_after new es ps rows =
      owed-append (upsert_entry new es) (shares_elsewhere f new.id rows) _
      ∙ rw (owed_elsewhere f new es rows, owed-new (upsert_entry new es) new.id ps) refl

  currency_after :
      (new : EntryRow) (es : List EntryRow)
      → Distinct es
      → currency_of (live_entry (upsert_entry new es) new.id)
        ≡ counted_in new.deleted_at new.currency
  currency_after new es d =
      let w = found_after_upsert new es in
      live_currency (upsert_entry new es) new.id (upsert-Distinct new es d)
      ∙ (ap row_counted_in w.found ∙ rw (w.columns, w.deleted) refl)

  -- A write takes out what the stored version is worth and puts in what the new one is.
  pub sum_where-with_entry :
      (new : EntryRow) (ps : List MoneyRow) (ss : List Share) (s : Db)
      → Distinct s.entries
      → sum_where f (deltas (with_entry new ps ss s))
          +ℤ worth f
              (row_counted_in (find_row (λ e. e.id == new.id) s.entries))
              (payers_of new.id s.entry_payers)
              (shares_of new.id s.entry_shares)
        ≡ sum_where f (deltas s) +ℤ worth f (counted_in new.deleted_at new.currency) ps ss
  unfolding worth
  sum_where-with_entry new ps ss s d =
      rw
        (
          sum_where-deltas (with_entry new ps ss s),
          sum_where-deltas s,
          paid_after new s.entries ps s.entry_payers,
          owed_after new s.entries ss s.entry_shares,
          paid_split f s.entries new.id s.entry_payers,
          owed_split f s.entries new.id s.entry_shares,
          currency_after new s.entries d,
          live_currency s.entries new.id d,
        )
        (omega int_laws)
