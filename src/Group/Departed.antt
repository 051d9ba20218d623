-- ===== src/Group/Departed.antt =====
-- server/src/do/group/ledger.ts, `assertDepartedOnlySettle`: somebody who has left cannot see the
-- group, so a write may move what they owe or are owed only toward zero.
pub mod Change
pub mod Write
pub mod Moved
pub mod Allowed
pub mod TowardZero
use opensplit.Prelude.{
  ℕ, ltb, Bool, true, false, ◌&&◌, ◌||◌, not, Option, none, some, List, [], ◌∷◌, ◌++◌, rows_where,
  any_row, is_some, ◌==◌, if◌then◌else◌,
}
use opensplit.Prelude.Int.{ℤ, pos, negsuc, abs, ◌+ℤ◌, neg}
use opensplit.Group.Schema.{MemberRow, MoneyRow, Share, Entry, EntryInput}
use opensplit.Group.Refusal.{forbidden}
use opensplit.Group.Tables.{Db}
use opensplit.Group.Action.{Action, gets, refuse_if, ◌>>=◌}
use opensplit.Group.Balances.{Position, group_deltas, position_of, is_zero}

unfoldable pub departed : Db → List MemberRow
departed s = rows_where (λ m. is_some m.left_at) s.members

abbrev pub has_departed : List MemberRow → ℕ → Bool
has_departed gone id = any_row (λ m. m.id == id) gone

-- `sign * amount`
abbrev pub signed : Bool → ℤ → ℤ
signed true d = d
signed false d = neg d

-- What `count` adds for the payers and the shares of one version, for those who have left: `+` for
-- the version that comes in, `-` for the stored one.
unfoldable pub moved_by_payers : List MemberRow → Bool → ℕ → List MoneyRow → List Position
moved_by_payers gone plus currency [] = []
moved_by_payers gone plus currency (p ∷ ps) =
    let rest = moved_by_payers gone plus currency ps in
    if has_departed gone p.member_id
    then record {
      member_id = p.member_id;
      currency = currency;
      balance_minor = signed plus (pos p.amount_minor);
    }
      ∷ rest
    else rest

unfoldable pub moved_by_shares : List MemberRow → Bool → ℕ → List Share → List Position
moved_by_shares gone plus currency [] = []
moved_by_shares gone plus currency (p ∷ ps) =
    let rest = moved_by_shares gone plus currency ps in
    if has_departed gone p.member_id
    then record {
      member_id = p.member_id;
      currency = currency;
      balance_minor = signed plus (neg (pos p.amount_minor));
    }
      ∷ rest
    else rest

unfoldable pub moved_by :
    List MemberRow → Bool → Option ℕ → ℕ → List MoneyRow → List Share → List Position
unfolding moved_by_payers moved_by_shares
moved_by gone plus (some deleted) currency payers shares = []
moved_by gone plus none currency payers shares =
    moved_by_payers gone plus currency payers ++ moved_by_shares gone plus currency shares

abbrev pub moved_by_stored : List MemberRow → Option Entry → List Position
moved_by_stored gone none = []
moved_by_stored gone (some e) = moved_by gone false e.deleted_at e.currency e.payers e.shares

-- Per member and currency: what this write moves, the stored version taken back out.
unfoldable pub moved : List MemberRow → Option Entry → EntryInput → List Position
unfolding moved_by group_deltas
moved gone stored input = group_deltas (
    moved_by_stored gone stored
    ++ moved_by gone true input.deleted_at input.currency input.payers input.shares)

-- `Math.sign`
abbrev pub sign : ℤ → ℤ
sign (pos n) = if n == 0 then pos 0 else pos 1
sign (negsuc n) = negsuc 0

abbrev pub eq_ℤ : ℤ → ℤ → Bool
eq_ℤ (pos a) (pos b) = a == b
eq_ℤ (negsuc a) (negsuc b) = a == b
eq_ℤ _ _ = false

unfoldable pub settles : ℤ → ℤ → Bool
unfolding neg
settles before after =
    not (is_zero before)
    && not (eq_ℤ (sign after) (neg (sign before)))
    && ltb (abs after) (abs before)

-- The loop over `moved`, on the balances held: whether every change is none or settles.
unfoldable pub only_settles : (ℕ → ℕ → ℤ) → List Position → Bool
unfolding settles
only_settles held [] = true
only_settles held (p ∷ ps) =
    let before = held p.member_id p.currency in
    (is_zero p.balance_minor || settles before (before +ℤ p.balance_minor)) && only_settles held ps

unfoldable pub assert_departed_only_settle : Option Entry → EntryInput → Action (Unit {0})
unfolding departed moved only_settles
assert_departed_only_settle stored input = do
  allowed ← gets (λ s. only_settles (position_of s) (moved (departed s) stored input))
  refuse_if (not allowed) forbidden
