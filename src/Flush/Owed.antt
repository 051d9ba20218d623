-- ===== src/Flush/Owed.antt =====
-- server/src/do/group/index.ts, `settle`: nothing that is staged is forgotten.
use mathlib.Core.Path.{subst}
use opensplit.Prelude.{
  ℕ, zero, suc, ◌+◌, ◌-◌, ◌≤◌, ◌≡◌, ◌≢◌, refl, sym, ap, ◌∙◌, Bool, ◌||◌, not, Option, none, some,
  List, [], ◌∷◌, length, take, map, min, get_or, arith, ◌⊎◌, inl, inr, same, same-eq, Bool-cases,
}
use opensplit.Prelude.Text.{Option-ℕ-discrete}
use opensplit.Group.Tables.{Db, OutboxRow}
use opensplit.Group.Action.{Outcome, done, thrown, pure, ◌>>=◌}
use opensplit.Group.Upkeep.{pending_outbox, backoff_outbox, backoff_for, retry_backoff, next_due}
use opensplit.Directory.Apply.{apply_row, applied_as}
use opensplit.Flush.{
  rest_of, Answer, taken, answer_lost, refused, World, Ended, sent, stopped, crashed, exhausted,
  goes_on, committed, by_answer, next_answer, send_row, and_then, send_batch, drain, recover, flush,
  set_alarm, settle, record_sent,
}
use opensplit.Flush.Ends.{drain_ends}

-- A retry is due, half a minute from now at the earliest and an hour at the latest.
abbrev pub IsRetried : ℕ → Db → Type 0
IsRetried now s = (at : ℕ) × (s.schedule ≡ some at) × (now + 30000 ≤ at) × (at ≤ now + 3600000)

-- Nothing is staged, or a retry is due.
abbrev pub IsOwed : ℕ → Db → Type 0
IsOwed now s = (s.outbox ≡ []) ⊎ IsRetried now s

delay_bounds :
    (i : ℕ) → (30000 ≤ get_or retry_backoff i 30000) × (get_or retry_backoff i 30000 ≤ 3600000)
delay_bounds zero = omega arith
delay_bounds (suc zero) = omega arith
delay_bounds (suc (suc zero)) = omega arith
delay_bounds (suc (suc (suc zero))) = omega arith
delay_bounds (suc (suc (suc (suc i)))) = omega arith

backoff_for_bounds : (n : ℕ) → (30000 ≤ backoff_for n) × (backoff_for n ≤ 3600000)
unfolding backoff_for
backoff_for_bounds n = delay_bounds (min n (length retry_backoff) - 1)

backoff_outbox-IsRetried :
    (id : ℕ) (ids : List ℕ) (now : ℕ) (s : Db)
    → IsRetried now (committed s (backoff_outbox (id ∷ ids) now s))
unfolding backoff_outbox ◌>>=◌
backoff_outbox-IsRetried id ids now s =
    (_, refl, omega (arith, backoff_for_bounds), omega (arith, backoff_for_bounds))

abbrev Leaves : ℕ → Ended × World → Type 0
Leaves now (sent, w) = w.db.outbox ≡ []
Leaves now (stopped, w) = IsRetried now w.db
Leaves now (crashed, w) = Unit
Leaves now (exhausted, w) = Unit

-- What a batch leaves: a retry, if D1 failed.
abbrev Stops : ℕ → Ended × World → Type 0
Stops now (sent, w) = Unit
Stops now (stopped, w) = IsRetried now w.db
Stops now (crashed, w) = Unit
Stops now (exhausted, w) = Unit

taken-Stops :
    (now : ℕ) (w : World) (s : Db) (o : Outcome (Unit {0}))
    → Stops now (goes_on o, record w { db = committed s o })
taken-Stops now w s (done a t) = tt
taken-Stops now w s (thrown e) = tt

by_answer-Stops :
    (answer : Answer) (row : OutboxRow) (now : ℕ) (w : World)
    → Stops now (by_answer answer row now w)
by_answer-Stops taken row now w =
    let d = apply_row row w.d1 in
    taken-Stops now (record w { d1 = d; answers = rest_of w.answers }) w.db
      (record_sent row (applied_as row d) now w.db)
by_answer-Stops answer_lost row now w = backoff_outbox-IsRetried row.id [] now w.db
by_answer-Stops refused row now w = backoff_outbox-IsRetried row.id [] now w.db

and_then-Stops :
    (now : ℕ) (k : World → Ended × World) (r : Ended × World)
    → Stops now r
    → ((w : World) → Stops now (k w))
    → Stops now (and_then k r)
and_then-Stops now k (sent, w) h g = g w
and_then-Stops now k (stopped, w) h g = h
and_then-Stops now k (crashed, w) h g = tt
and_then-Stops now k (exhausted, w) h g = tt

send_batch-Stops : (rows : List OutboxRow) (now : ℕ) (w : World) → Stops now (send_batch rows now w)
unfolding send_batch send_row
send_batch-Stops [] now w = tt
send_batch-Stops (row ∷ rows) now w =
    and_then-Stops now (λ v. send_batch rows now v) (send_row row now w)
      (by_answer-Stops (next_answer w.answers) row now w) (λ v. send_batch-Stops rows now v)

and_then-Leaves :
    (now : ℕ) (k : World → Ended × World) (r : Ended × World)
    → Stops now r
    → ((w : World) → Leaves now (k w))
    → Leaves now (and_then k r)
and_then-Leaves now k (sent, w) h g = g w
and_then-Leaves now k (stopped, w) h g = h
and_then-Leaves now k (crashed, w) h g = tt
and_then-Leaves now k (exhausted, w) h g = tt

none_pending : (outbox : List OutboxRow) → take 20 outbox ≡ [] → outbox ≡ []
none_pending [] h = refl
none_pending (r ∷ outbox) h = cc

drain-Leaves : (rounds now : ℕ) (w : World) → Leaves now (drain rounds now w)
unfolding drain pending_outbox
drain-Leaves zero now w = tt
drain-Leaves (suc rounds) now w = go (drain-Leaves rounds now) (take 20 w.db.outbox) refl
  where
    go :
        ((v : World) → Leaves now (drain rounds now v))
        → (pending : List OutboxRow) → take 20 w.db.outbox ≡ pending
        → Leaves now (elim pending [
          | [] ↦ (sent, w)
          | row ∷ rows ↦ and_then (λ v. drain rounds now v) (send_batch (row ∷ rows) now w)
        ])
    go rest [] e = none_pending w.db.outbox e
    go rest (row ∷ rows) e =
        and_then-Leaves now (λ v. drain rounds now v) (send_batch (row ∷ rows) now w)
          (send_batch-Stops (row ∷ rows) now w) rest

crash-IsOwed :
    (now : ℕ) (s : Db) (outbox : List OutboxRow)
    → s.outbox ≡ outbox
    → IsOwed now (committed s (backoff_outbox (map (λ r. r.id) (take 1 outbox)) now s))
unfolding backoff_outbox pure
crash-IsOwed now s [] e = inl e
crash-IsOwed now s (r ∷ outbox) e = inr (backoff_outbox-IsRetried r.id [] now s)

recover-IsOwed :
    (now : ℕ) (r : Ended × World) → Leaves now r → r.0 ≢ exhausted → IsOwed now (recover now r).db
unfolding pending_outbox
recover-IsOwed now (sent, w) h e = inl h
recover-IsOwed now (stopped, w) h e = inr h
recover-IsOwed now (crashed, w) h e = crash-IsOwed now w.db w.db.outbox refl
recover-IsOwed now (exhausted, w) h e = absurd (e refl)

flush-IsOwed : (now : ℕ) (w : World) → IsOwed now (flush now w).db
unfolding flush
flush-IsOwed now w =
    recover-IsOwed now (drain (length w.db.outbox + 2) now w)
      (drain-Leaves (length w.db.outbox + 2) now w) (drain_ends now w)

set_alarm_lem :
    (rearm : Bool) (due : Option ℕ) (w : World)
    → ((set_alarm rearm due w).alarm ≡ due) × ((set_alarm rearm due w).db ≡ w.db)
set_alarm_lem rearm none w = (refl, refl)
set_alarm_lem rearm (some due) w =
    elim (Bool-cases (rearm || not (same Option-ℕ-discrete w.alarm (some due)))) [
      | inl e ↦ rw e (refl, refl)
      | inr e ↦ rw e (same-eq Option-ℕ-discrete w.alarm (some due) (ground arith), refl)
    ]

-- Nothing that is staged is forgotten. After `settle`, whatever D1 answered, whether or not a
-- transaction on the way threw, the alarm stands at what the schedule says; and either nothing is
-- staged any more, or a retry is scheduled, between half a minute and an hour
-- from now.
pub settle-IsOwed :
    (rearm : Bool) (now : ℕ) (w : World)
    → ((settle rearm now w).alarm ≡ (settle rearm now w).db.schedule)
      × IsOwed now (settle rearm now w).db
unfolding settle next_due
settle-IsOwed rearm now w =
    let v = flush now w in
    let a = set_alarm_lem rearm v.db.schedule v in
    (a.0 ∙ ap (λ (s : Db). s.schedule) (sym a.1), subst (IsOwed now) (sym a.1) (flush-IsOwed now w))
