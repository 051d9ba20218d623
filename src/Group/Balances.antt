-- ===== src/Group/Balances.antt =====
-- server/src/do/group/balances.ts: every open position, by member and currency.
pub mod Sums
pub mod Settled
pub mod Conservation
pub mod ByExpense
use opensplit.Prelude.{
  ℕ, Bool, true, false, ◌&&◌, not, Option, none, some, List, [], ◌∷◌, ◌++◌, find_row, rows_where,
  any_row, is_none, ◌==◌, if◌then◌else◌,
}
use opensplit.Prelude.Int.{ℤ, pos, negsuc, ◌+ℤ◌, neg}
use opensplit.Group.Schema.{EntryRow, EntryPayerRow, EntryShareRow}
use opensplit.Group.Tables.{Db}

pub record Position : Type 0 where
  pub member_id : ℕ
  pub currency : ℕ
  pub balance_minor : ℤ

-- `join entries e on e.id = … where e.deleted_at is null`. The id is the primary key of entries, so
-- a row joins one entry at most.
unfoldable pub live_entry : List EntryRow → ℕ → Option EntryRow
live_entry entries id = find_row (λ e. e.id == id && is_none e.deleted_at) entries

abbrev pub delta_of : ℕ → ℤ → Option EntryRow → List Position → List Position
delta_of m d none rest = rest
delta_of m d (some e) rest =
    record { member_id = m; currency = e.currency; balance_minor = d } ∷ rest

-- The two halves of the `union all`: what a payer is owed, and what a share owes.
unfoldable pub payer_deltas : List EntryRow → List EntryPayerRow → List Position
payer_deltas entries [] = []
payer_deltas entries (p ∷ ps) =
    delta_of p.member_id (pos p.amount_minor) (live_entry entries p.entry_id)
      (payer_deltas entries ps)

unfoldable pub share_deltas : List EntryRow → List EntryShareRow → List Position
share_deltas entries [] = []
share_deltas entries (s ∷ ss) =
    delta_of s.member_id (neg (pos s.amount_minor)) (live_entry entries s.entry_id)
      (share_deltas entries ss)

abbrev pub is_at : ℕ → ℕ → Position → Bool
is_at m c p = p.member_id == m && p.currency == c

-- `group by member_id, currency` with `sum(delta)`.
unfoldable pub add_delta : Position → List Position → List Position
add_delta d [] = d ∷ []
add_delta d (p ∷ ps) =
    if is_at d.member_id d.currency p
    then record p { balance_minor = d.balance_minor +ℤ p.balance_minor } ∷ ps
    else p ∷ add_delta d ps

unfoldable pub group_deltas : List Position → List Position
unfolding add_delta
group_deltas [] = []
group_deltas (d ∷ ds) = add_delta d (group_deltas ds)

abbrev pub is_zero : ℤ → Bool
is_zero (pos n) = n == 0
is_zero (negsuc n) = false

unfoldable pub deltas : Db → List Position
deltas s = payer_deltas s.entries s.entry_payers ++ share_deltas s.entries s.entry_shares

-- The query `positions`: `having sum(delta) <> 0`.
unfoldable pub outstanding : Db → List Position
unfolding group_deltas deltas
outstanding s = rows_where (λ p. not (is_zero p.balance_minor)) (group_deltas (deltas s))

unfoldable pub is_settled : Db → ℕ → Bool
is_settled s member = not (any_row (λ p. p.member_id == member) (outstanding s))

unfoldable pub is_group_settled : Db → Bool
is_group_settled s = elim (outstanding s) [ [] ↦ true | _ ∷ _ ↦ false ]

abbrev pub balance_or_zero : Option Position → ℤ
balance_or_zero none = pos 0
balance_or_zero (some p) = p.balance_minor

-- `positionsByMember`, read at one member and currency, with `?? 0`.
unfoldable pub position_of : Db → ℕ → ℕ → ℤ
position_of s member currency = balance_or_zero (find_row (is_at member currency) (outstanding s))
