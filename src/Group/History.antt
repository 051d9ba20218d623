-- ===== src/Group/History.antt =====
-- What no history of requests to the object (server/src/do/group/index.ts) can undo or break: the
-- sequence counter and the tombstone.
use opensplit.Prelude.{ℕ, ◌≤◌, ◌≡◌, refl, some, List, arith}
use opensplit.Group.Schema.{TombstoneRow}
use opensplit.Group.Tables.{Db}
use opensplit.Group.Action.Keeps.{Order, Preserving}
use opensplit.Group.Store.{current_seq, empty_tables}
use opensplit.Group.Object.{Request, serve}
use opensplit.Group.Frame.{Frame}
use opensplit.Group.Frame.Object.{serve-Frame}

CounterOrder : Order
CounterOrder = record {
  rel = λ s t. current_seq s ≤ current_seq t;
  reflexive = λ s. omega arith;
  transitive = λ s t u p q. omega arith;
}

counter-Frame : Frame CounterOrder
unfolding CounterOrder empty_tables current_seq
counter-Frame = record {
  counter = λ s n e. omega arith;
  drawn = λ s. omega arith;
  members = λ s rows p q. omega arith;
  meta = λ s row. omega arith;
  events = λ s e p. omega arith;
  invites = λ s rows. omega arith;
  group_link = λ s row. omega arith;
  outbox = λ s payload now. omega arith;
  written = λ s row payers shares p q. omega arith;
  emptied = λ s grave. omega arith;
}

-- Whatever the requests and however they end, the end of the group included, the sequence that a
-- client has seen is never taken back.
pub seq_never_decreases :
    (s : Db) (requests : List (ℕ × Request)) → current_seq s ≤ current_seq (serve s requests)
unfolding CounterOrder
seq_never_decreases s requests = serve-Frame counter-Frame s requests

tombstone-Frame : (grave : TombstoneRow) → Frame (Preserving (λ s. s.tombstone ≡ some grave))
unfolding empty_tables
tombstone-Frame grave = record {
  counter = λ s n e h. h;
  drawn = λ s h. h;
  members = λ s rows p q h. h;
  meta = λ s row h. h;
  events = λ s e p h. h;
  invites = λ s rows h. h;
  group_link = λ s row h. h;
  outbox = λ s payload now h. h;
  written = λ s row payers shares p q h. h;
  emptied = λ s other h. rw h refl;
}

-- A tombstone, once left, stays as it is whatever requests follow.
pub tombstone_stays :
    (s : Db) (requests : List (ℕ × Request)) (grave : TombstoneRow)
    → s.tombstone ≡ some grave
    → (serve s requests).tombstone ≡ some grave
tombstone_stays s requests grave h = serve-Frame (tombstone-Frame grave) s requests h
