-- ===== src/Group/Books.antt =====
-- The balance invariant of the ledger (server/src/do/group/ledger.ts, `assertBalanced`), kept by
-- every request to the object.
pub mod Rows
use opensplit.Prelude.{ℕ, ◌≡◌, refl, Option, none, some, List, [], ◌∷◌, All}
use opensplit.Group.Schema.{EntryRow, EntryPayerRow, EntryShareRow, MoneyRow, Share}
use opensplit.Group.Tables.{Db}
use opensplit.Group.Action.Keeps.{Preserving}
use opensplit.Group.Entries.{sum_payers, sum_shares}
use opensplit.Group.Store.{empty_tables}
use opensplit.Group.Object.{Request, serve, fresh_db}
use opensplit.Group.Frame.{Frame}
use opensplit.Group.Frame.Object.{serve-Frame}
use Rows.{IsBalanced, with_entry-IsBalanced}

IsBalanced-Frame : Frame (Preserving IsBalanced)
unfolding empty_tables
IsBalanced-Frame = record {
  counter = λ s n e h. record { distinct = h.distinct; sums = h.sums };
  drawn = λ s h. record { distinct = h.distinct; sums = h.sums };
  members = λ s rows p q h. record { distinct = h.distinct; sums = h.sums };
  meta = λ s row h. record { distinct = h.distinct; sums = h.sums };
  events = λ s e p h. record { distinct = h.distinct; sums = h.sums };
  invites = λ s rows h. record { distinct = h.distinct; sums = h.sums };
  group_link = λ s row h. record { distinct = h.distinct; sums = h.sums };
  outbox = λ s payload now h. record { distinct = h.distinct; sums = h.sums };
  written = with_entry-IsBalanced;
  emptied = λ s grave h. record { distinct = tt; sums = tt };
}

-- From a ledger in which each expense adds up, after any requests, each still does: its payers and
-- its shares both sum to its amount, and no id is used by two expenses.
pub serve-IsBalanced :
    (s : Db) (requests : List (ℕ × Request)) → IsBalanced s → IsBalanced (serve s requests)
serve-IsBalanced s requests h = serve-Frame IsBalanced-Frame s requests h

pub IsBalanced-fresh_db : (random : ℕ → ℕ) → IsBalanced (fresh_db random)
unfolding fresh_db
IsBalanced-fresh_db random = record { distinct = tt; sums = tt }
