-- ===== src/Flush/Ends.antt =====
-- server/src/do/group/index.ts, `drain`: it comes to an end.
use opensplit.Prelude.{
  ℕ, zero, suc, ◌+◌, ◌-◌, ◌≤◌, ◌<◌, ◌≡◌, ◌≢◌, refl, true, List, [], ◌∷◌, length, take, arith,
}
use opensplit.Group.Tables.{Db, OutboxRow}
use opensplit.Group.Action.{Outcome, done, thrown}
use opensplit.Group.Action.Keeps.{After}
use opensplit.Group.Upkeep.{pending_outbox}
use opensplit.Directory.Apply.{apply_row, applied_as}
use opensplit.Flush.{
  Answer, taken, answer_lost, refused, World, Ended, sent, stopped, crashed, exhausted, goes_on,
  committed, record_sent, by_answer, next_answer, rest_of, send_row, and_then, send_batch, drain,
}
use opensplit.Flush.Weight.{weight, is_staged, record_sent-Lightens, record_sent_lightens}

-- A loop that went through has at most so much left to do, and no loop ran out of rounds.
abbrev Within : ℕ → Ended × World → Type 0
Within n (sent, w) = weight w.db ≤ n
Within n (stopped, w) = Unit
Within n (crashed, w) = Unit
Within n (exhausted, w) = ⊥

taken_Within :
    (n : ℕ) (w : World) (s : Db) (o : Outcome (Unit {0}))
    → After (λ t. weight t ≤ n) o
    → Within n (goes_on o, record w { db = committed s o })
taken_Within n w s (done a t) h = h
taken_Within n w s (thrown e) h = tt

by_answer-Within :
    (n : ℕ) (answer : Answer) (row : OutboxRow) (now : ℕ) (w : World)
    → After (λ t. weight t ≤ n) (record_sent row (applied_as row (apply_row row w.d1)) now w.db)
    → Within n (by_answer answer row now w)
by_answer-Within n taken row now w h =
    let d = apply_row row w.d1 in
    taken_Within n (record w { d1 = d; answers = rest_of w.answers }) w.db
      (record_sent row (applied_as row d) now w.db) h
by_answer-Within n answer_lost row now w h = tt
by_answer-Within n refused row now w h = tt

send_row-Within :
    (row : OutboxRow) (now : ℕ) (w : World) → Within (weight w.db) (send_row row now w)
unfolding send_row
send_row-Within row now w =
    by_answer-Within (weight w.db) (next_answer w.answers) row now w
      ((record_sent-Lightens row _ now).at w.db)

less_one :
    (n m : ℕ) (o : Outcome (Unit {0}))
    → m ≤ suc n
    → After (λ t. weight t + 1 ≤ m) o
    → After (λ t. weight t ≤ n) o
less_one n m (done a t) h g = omega arith
less_one n m (thrown e) h g = tt

send_staged-Within :
    (n : ℕ) (row : OutboxRow) (now : ℕ) (w : World)
    → is_staged row.id w.db.outbox ≡ true
    → weight w.db ≤ suc n
    → Within n (send_row row now w)
unfolding send_row
send_staged-Within n row now w h le =
    by_answer-Within n (next_answer w.answers) row now w
      (less_one n (weight w.db) _ le (record_sent_lightens row _ now w.db h))

and_then-Within :
    (n m : ℕ) (k : World → Ended × World) (r : Ended × World)
    → Within n r
    → ((w : World) → weight w.db ≤ n → Within m (k w))
    → Within m (and_then k r)
and_then-Within n m k (sent, w) h g = g w h
and_then-Within n m k (stopped, w) h g = tt
and_then-Within n m k (crashed, w) h g = tt
and_then-Within n m k (exhausted, w) h g = elim h [ ]

weaken : (n m : ℕ) (r : Ended × World) → n ≤ m → Within n r → Within m r
weaken n m (sent, w) h g = omega arith
weaken n m (stopped, w) h g = tt
weaken n m (crashed, w) h g = tt
weaken n m (exhausted, w) h g = g

send_batch-Within :
    (rows : List OutboxRow) (now : ℕ) (w : World) → Within (weight w.db) (send_batch rows now w)
unfolding send_batch
send_batch-Within [] now w = omega arith
send_batch-Within (row ∷ rows) now w =
    and_then-Within (weight w.db) (weight w.db) _ (send_row row now w) (send_row-Within row now w)
      λ v h. weaken (weight v.db) (weight w.db) _ h (send_batch-Within rows now v)

staged_first :
    (limit : ℕ) (outbox rows : List OutboxRow) (row : OutboxRow)
    → take limit outbox ≡ row ∷ rows
    → is_staged row.id outbox ≡ true
staged_first zero outbox rows row h = cc
staged_first (suc limit) [] rows row h = cc
staged_first (suc limit) (r ∷ outbox) rows row h = ground arith

staged_some :
    (outbox rows : List OutboxRow) (row : OutboxRow)
    → take 20 outbox ≡ row ∷ rows
    → 0 < length outbox
staged_some [] rows row h = cc
staged_some (r ∷ outbox) rows row h = omega arith

-- A round that does not end the loop leaves less to do.
round-Within :
    (row : OutboxRow) (rows : List OutboxRow) (n now : ℕ) (w : World)
    → take 20 w.db.outbox ≡ row ∷ rows
    → weight w.db ≤ suc n
    → Within n (send_batch (row ∷ rows) now w)
unfolding send_batch
round-Within row rows n now w e h =
    and_then-Within n n (λ v. send_batch rows now v) (send_row row now w)
      (send_staged-Within n row now w (staged_first 20 w.db.outbox rows row e) h)
      λ v le. weaken (weight v.db) n _ le (send_batch-Within rows now v)

abbrev Rest : ℕ → ℕ → Type 0
Rest rounds now = (v : World) → weight v.db < rounds → Within (weight v.db) (drain rounds now v)

drain-Within :
    (rounds now : ℕ) (w : World) → weight w.db < rounds → Within (weight w.db) (drain rounds now w)
unfolding drain pending_outbox
drain-Within zero now w h = elim h [ ]
drain-Within (suc rounds) now w h = go (drain-Within rounds now) (take 20 w.db.outbox) refl
  where
    go :
        Rest rounds now
        → (pending : List OutboxRow) → take 20 w.db.outbox ≡ pending
        → Within (weight w.db) (elim pending [
          | [] ↦ (sent, w)
          | row ∷ rows ↦ and_then (λ v. drain rounds now v) (send_batch (row ∷ rows) now w)
        ])
    go rest [] e = omega arith
    go rest (row ∷ rows) e =
        let n = weight w.db - 1 in
        let some_left = staged_some w.db.outbox rows row e in
        and_then-Within n (weight w.db) (λ v. drain rounds now v) (send_batch (row ∷ rows) now w)
          (round-Within row rows n now w e (omega arith))
          λ v le. weaken (weight v.db) (weight w.db) _ (omega arith) (rest v (omega arith))

weight_bound : (s : Db) → weight s < length s.outbox + 2
weight_bound s = ground arith

ends : (n : ℕ) (r : Ended × World) → Within n r → r.0 ≢ exhausted
ends n (sent, w) h e = cc
ends n (stopped, w) h e = cc
ends n (crashed, w) h e = cc
ends n (exhausted, w) h e = h

-- The loop of `drain` comes to an end, whatever D1 answers and whatever the transactions do: the
-- rounds that `flush` allows, two more than there are staged rows, do not run out. Deleted accounts
-- that are forgotten on the way may end the group, which stages one row more.
pub drain_ends : (now : ℕ) (w : World) → (drain (length w.db.outbox + 2) now w).0 ≢ exhausted
drain_ends now w =
    ends (weight w.db) _ (drain-Within (length w.db.outbox + 2) now w (weight_bound w.db))
