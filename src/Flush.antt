-- ===== src/Flush.antt =====
-- server/src/do/group/index.ts, `settle`, `flush` and `drain`: sending what is staged to D1, and the
-- alarm that stands for what is still owed.
pub mod Weight
pub mod Owed
pub mod Ends
pub mod Kept
use opensplit.Prelude.{
  ℕ, zero, suc, ◌+◌, Bool, true, false, ◌||◌, not, Option, none, some, List, [], ◌∷◌, map, length,
  is_some, same, if◌then◌else◌,
}
use opensplit.Prelude.Text.{Option-ℕ-discrete}
use opensplit.Group.Tables.{Db, OutboxRow, OutboxPayload, membership}
use opensplit.Group.Action.{Action, Outcome, done, thrown, pure, ◌>>=◌, ◌>>◌}
use opensplit.Group.Upkeep.{next_due, pending_outbox, clear_outbox, backoff_outbox}
use opensplit.Group.Roster.Accounts.{forget_profile}
use opensplit.Directory.Tables.{Directory}
use opensplit.Directory.Apply.{Applied, applied, account_gone, apply_row, applied_as}

-- What comes of sending a write to D1: it is taken, or it is taken and the answer is lost, or it is
-- not taken.
pub data Answer : Type 0 where
  taken answer_lost refused : Answer

-- The object's database, D1, the answers that D1 will give (and from then on it takes everything),
-- and the object's alarm.
pub record World : Type 0 where
  pub db : Db
  pub d1 : Directory
  pub answers : List Answer
  pub alarm : Option ℕ

-- How a loop over rows ended: every row was sent, D1 failed at one, a transaction threw, or the
-- rounds ran out.
pub data Ended : Type 0 where
  sent stopped crashed exhausted : Ended

abbrev pub next_answer : List Answer → Answer
next_answer [] = taken
next_answer (a ∷ _) = a

abbrev pub rest_of : List Answer → List Answer
rest_of [] = []
rest_of (_ ∷ answers) = answers

-- A transaction's effect. A throw rolls it back.
abbrev pub committed : {A : Type 0} → Db → Outcome A → Db
committed s (done a t) = t
committed s (thrown e) = s

abbrev pub goes_on : {A : Type 0} → Outcome A → Ended
goes_on (done a t) = sent
goes_on (thrown e) = crashed

-- An account that was deleted before its membership reached D1 is forgotten here.
abbrev pub forget_gone : OutboxPayload → Applied → ℕ → Action (Unit {0})
forget_gone (membership w) account_gone now = do forget_profile w.profile_id none now; pure tt
forget_gone _ _ now = pure tt

-- The transaction after D1 has taken a row.
unfoldable pub record_sent : OutboxRow → Applied → ℕ → Action (Unit {0})
record_sent row outcome now = do clear_outbox (row.id ∷ []); forget_gone row.payload outcome now

-- D1 has taken a row, and the object records it.
abbrev pub row_taken : OutboxRow → ℕ → World → Ended × World
row_taken row now w =
    let d = apply_row row w.d1 in
    let outcome = record_sent row (applied_as row d) now w.db in
    (goes_on outcome, record w { db = committed w.db outcome; d1 = d; answers = rest_of w.answers })

abbrev pub row_failed : OutboxRow → ℕ → Directory → World → Ended × World
row_failed row now d w = (
  stopped,
  record w {
    db = committed w.db (backoff_outbox (row.id ∷ []) now w.db);
    d1 = d;
    answers = rest_of w.answers;
  },
)

abbrev pub by_answer : Answer → OutboxRow → ℕ → World → Ended × World
by_answer taken row now w = row_taken row now w
by_answer answer_lost row now w = row_failed row now (apply_row row w.d1) w
by_answer refused row now w = row_failed row now w.d1 w

unfoldable pub send_row : OutboxRow → ℕ → World → Ended × World
unfolding record_sent
send_row row now w = by_answer (next_answer w.answers) row now w

-- The rest of the rows, unless one ended the loop.
abbrev pub and_then : (World → Ended × World) → Ended × World → Ended × World
and_then k (sent, w) = k w
and_then k (stopped, w) = (stopped, w)
and_then k (crashed, w) = (crashed, w)
and_then k (exhausted, w) = (exhausted, w)

-- The inner loop of `drain`, over the rows that were read.
unfoldable pub send_batch : List OutboxRow → ℕ → World → Ended × World
unfolding send_row
send_batch [] now w = (sent, w)
send_batch (row ∷ rows) now w = and_then (λ v. send_batch rows now v) (send_row row now w)

-- `drain`: rounds of at most twenty rows, until there are none.
unfoldable pub drain : ℕ → ℕ → World → Ended × World
unfolding send_batch
drain zero now w = (exhausted, w)
drain (suc rounds) now w = elim (pending_outbox 20 w.db) [
  | [] ↦ (sent, w)
  | row ∷ rows ↦ and_then (λ v. drain rounds now v) (send_batch (row ∷ rows) now w)
]

-- `flush`: after a crash the oldest row is left to the alarm.
abbrev pub recover : ℕ → Ended × World → World
recover now (crashed, w) = record w {
  db = committed w.db (backoff_outbox (map (λ r. r.id) (pending_outbox 1 w.db)) now w.db);
}
recover now (sent, w) = w
recover now (stopped, w) = w
recover now (exhausted, w) = w

-- Each round sends one row at least, and one purge may be staged on the way.
unfoldable pub flush : ℕ → World → World
unfolding drain
flush now w = recover now (drain (length w.db.outbox + 2) now w)

-- The alarm is put at what is due, or taken off.
abbrev pub set_alarm : Bool → Option ℕ → World → World
set_alarm rearm none w = record w { alarm = none }
set_alarm rearm (some due) w =
    if rearm || not (same Option-ℕ-discrete w.alarm (some due))
    then record w { alarm = some due }
    else w

-- `settle`
unfoldable pub settle : Bool → ℕ → World → World
unfolding flush
settle rearm now w = let v = flush now w in set_alarm rearm (next_due v.db) v
