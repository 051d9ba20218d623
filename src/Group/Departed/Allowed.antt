-- ===== src/Group/Departed/Allowed.antt =====
-- server/src/do/group/ledger.ts, `assertDepartedOnlySettle`: what the test lets a write do to the
-- position of somebody who has left.
use mathlib.Core.Path.{subst}
use opensplit.Prelude.{
  ℕ, ◌≡◌, refl, sym, ◌∙◌, ap, true, false, ◌&&◌, Option, none, some, List, [], ◌∷◌, ◌++◌, find_row,
  ◌==◌, case_of, Bool-cases, inl, inr, arith,
}
use opensplit.Prelude.Int.{ℤ, pos, ◌+ℤ◌, neg, int_laws}
use opensplit.Group.Schema.{MemberRow, Entry, EntryInput, EntryRow}
use opensplit.Group.Tables.{Db}
use opensplit.Group.Store.{WriteContext}
use opensplit.Group.Balances.{deltas, position_of}
use opensplit.Group.Balances.Sums.{
  Test, sum_where, balance, sum_where-append, sum_where-group_deltas,
}
use opensplit.Group.Balances.Settled.{Grouped, position_of-eq-balance, group_deltas-Grouped}
use opensplit.Group.Books.Rows.{Distinct}
use opensplit.Group.Entries.{read_row, read_entry, read_entries, payers_of, shares_of}
use opensplit.Group.Frame.{with_entry}
use opensplit.Group.Ledger.{new_row, deleted_at_of}
use opensplit.Group.Ledger.Stored.{SameBooks}
use opensplit.Group.Departed.{
  departed, has_departed, moved, moved_by_stored, moved_by, only_settles,
}
use opensplit.Group.Departed.Change.{worth, counted_in, row_counted_in}
use opensplit.Group.Departed.Write.{sum_where-with_entry}
use opensplit.Group.Departed.Moved.{
  TowardZero, sum_where-moved_by, only_settles-TowardZero, nothing,
}

abbrev at : ℕ → ℕ → Test
at m c = λ n d. n == m && d == c

neg_zero : neg (pos 0) ≡ pos 0
unfolding neg
neg_zero = refl

found_id :
    (id : ℕ) (es : List EntryRow) (e : EntryRow)
    → find_row (λ e. e.id == id) es ≡ some e
    → e.id ≡ id
found_id id [] e h = cc
found_id id (x ∷ es) e h = elim (Bool-cases (x.id == id)) [
  | inl hit ↦
      let same_row : some x ≡ some e = rw hit at h in
      let same_id : x.id ≡ e.id = ap (λ (o : Option EntryRow). case_of o 0 (λ a. a.id)) same_row in
      sym same_id ∙ ground arith
  | inr miss ↦ found_id id es e (rw miss at h)
]

counted_as_input :
    (stored : Option Entry) (input : EntryInput) (now currency : ℕ)
    → counted_in (deleted_at_of stored input now) currency ≡ counted_in input.deleted_at currency
unfolding deleted_at_of
counted_as_input stored input now currency = ground arith

moved-Grouped :
    (gone : List MemberRow) (stored : Option Entry) (input : EntryInput)
    → Grouped (moved gone stored input)
unfolding moved
moved-Grouped gone stored input = group_deltas-Grouped (
    moved_by_stored gone stored
    ++ moved_by gone true input.deleted_at input.currency input.payers input.shares)

take_back : (a w : ℤ) → a ≡ a +ℤ w +ℤ neg w
take_back a w = omega int_laws

swap_ends : (b v w : ℤ) → b +ℤ v +ℤ neg w ≡ b +ℤ (neg w +ℤ v)
swap_ends b v w = omega int_laws

solve :
    (after stored before new change : ℤ)
    → after +ℤ stored ≡ before +ℤ new
    → change ≡ neg stored +ℤ new
    → after ≡ before +ℤ change
solve after stored before new change h g =
    take_back after stored
    ∙ (ap (λ x. x +ℤ neg stored) h ∙ (swap_ends before new stored ∙ ap (λ x. before +ℤ x) (sym g)))

same-deltas : (s t : Db) → SameBooks s t → deltas t ≡ deltas s
unfolding deltas
same-deltas s t h = rw (h.entries, h.payers, h.shares)

module _ (s : Db) (m c : ℕ) (left : has_departed (departed s) m ≡ true) where
  at_departed : (n d : ℕ) → at m c n d ≡ true → has_departed (departed s) n ≡ true
  at_departed n d h = let e : n ≡ m = ground arith in rw e left

  -- What the stored version of an expense is worth, as `moved` takes it back out.
  row_worth :
      (id : ℕ) (o : Option EntryRow)
      → ((e : EntryRow) → o ≡ some e → e.id ≡ id)
      → sum_where (at m c) (moved_by_stored (departed s) (read_row s o))
        ≡ neg (
            worth
              (at m c)
              (row_counted_in o)
              (payers_of id s.entry_payers)
              (shares_of id s.entry_shares))
  unfolding read_entries sum_where
  row_worth id none h =
      rw
        (nothing (departed s) (at m c) at_departed (payers_of id s.entry_payers)
          (shares_of id s.entry_shares))
        (sym neg_zero)
  row_worth id (some e) h =
      sum_where-moved_by (departed s) (at m c) at_departed false e.deleted_at e.currency _ _
      ∙ rw (h e refl) refl

  stored_worth :
      (id : ℕ)
      → sum_where (at m c) (moved_by_stored (departed s) (read_entry s id))
        ≡ neg (
            worth
              (at m c)
              (row_counted_in (find_row (λ e. e.id == id) s.entries))
              (payers_of id s.entry_payers)
              (shares_of id s.entry_shares))
  unfolding read_entry
  stored_worth id = row_worth id _ (λ e found. found_id id s.entries e found)

  -- What `moved` holds for the member: the new version less the stored one.
  balance-moved :
      (id : ℕ) (input : EntryInput)
      → balance m c (moved (departed s) (read_entry s id) input)
        ≡ neg (
            worth
              (at m c)
              (row_counted_in (find_row (λ e. e.id == id) s.entries))
              (payers_of id s.entry_payers)
              (shares_of id s.entry_shares))
          +ℤ worth (at m c) (counted_in input.deleted_at input.currency) input.payers input.shares
  unfolding moved balance
  balance-moved id input =
      sum_where-group_deltas (at m c) _
      ∙ (sum_where-append (at m c) (moved_by_stored (departed s) (read_entry s id)) _
          ∙ rw
              (
                stored_worth id,
                sum_where-moved_by (departed s) (at m c) at_departed true input.deleted_at
                    input.currency input.payers input.shares,
              )
              refl)

  -- A write that the check lets through moves the member's position toward zero.
  pub write-TowardZero :
      (id : ℕ) (input : EntryInput) (author : WriteContext) (seq : ℕ) (t : Db)
      → Distinct s.entries
      → only_settles (position_of s) (moved (departed s) (read_entry s id) input) ≡ true
      → SameBooks
          (with_entry (new_row id (read_entry s id) input author seq) input.payers input.shares s)
          t
      → TowardZero (position_of s m c) (position_of t m c)
  unfolding new_row balance
  write-TowardZero id input author seq t d allowed same_rows =
      let new = new_row id (read_entry s id) input author seq in
      let written = with_entry new input.payers input.shares s in
      let count = counted_as_input (read_entry s id) input author.now input.currency in
      let write = rw count at (sum_where-with_entry (at m c) new input.payers input.shares s d) in
      let held = position_of-eq-balance s m c in
      let after =
        position_of-eq-balance t m c
        ∙ (ap (balance m c) (same-deltas written t same_rows)
            ∙ (solve _ _ _ _ _ write (balance-moved id input)
                ∙ ap (λ b. b +ℤ balance m c (moved (departed s) (read_entry s id) input))
                    (sym held))) in
      subst (TowardZero (position_of s m c)) (sym after) (
        only_settles-TowardZero (position_of s) _ m c
          (moved-Grouped (departed s) (read_entry s id) input) allowed)
