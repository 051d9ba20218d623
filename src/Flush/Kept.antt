-- ===== src/Flush/Kept.antt =====
-- What flushing an outbox keeps (server/src/do/group/index.ts), of the object's database and of D1:
-- what sending a row keeps.
use opensplit.Prelude.{
  ℕ, zero, suc, ◌+◌, Bool, Option, none, some, List, [], ◌∷◌, map, length, arith,
}
use opensplit.Group.Tables.{Db, OutboxRow}
use opensplit.Group.Action.{Outcome, done, thrown}
use opensplit.Group.Action.Keeps.{After, Keeps, Preserving}
use opensplit.Group.Upkeep.{pending_outbox, backoff_outbox}
use opensplit.Directory.Tables.{Directory}
use opensplit.Directory.Apply.{Applied, apply_row}
use opensplit.Flush.{
  World, Answer, taken, answer_lost, refused, Ended, sent, stopped, crashed, exhausted, next_answer,
  committed, record_sent, by_answer, send_row, and_then, send_batch, drain, recover, flush,
  set_alarm, settle,
}

pub record Kept (P : Db → Type 0) (Q : Directory → Type 0) : Type 0 where
  pub record_sent :
      (row : OutboxRow) (outcome : Applied) (now : ℕ)
      → Keeps (Preserving P) (record_sent row outcome now)
  pub backoff : (ids : List ℕ) (now : ℕ) → Keeps (Preserving P) (backoff_outbox ids now)
  pub apply_row : (row : OutboxRow) (d : Directory) → Q d → Q (apply_row row d)

module _ {P : Db → Type 0} {Q : Directory → Type 0} (k : Kept P Q) where
  abbrev Both : World → Type 0
  Both w = P w.db × Q w.d1

  committed-Kept :
      {A : Type 0} (s : Db) (o : Outcome A) → After (λ t. P s → P t) o → P s → P (committed s o)
  committed-Kept s (done a t) h p = h p
  committed-Kept s (thrown e) h p = p

  by_answer-Both :
      (answer : Answer) (row : OutboxRow) (now : ℕ) (w : World)
      → Both w
      → Both (by_answer answer row now w).1
  by_answer-Both taken row now w b =
      (committed-Kept w.db _ ((k.record_sent row _ now).at w.db) b.0, k.apply_row row w.d1 b.1)
  by_answer-Both answer_lost row now w b =
      (committed-Kept w.db _ ((k.backoff (row.id ∷ []) now).at w.db) b.0, k.apply_row row w.d1 b.1)
  by_answer-Both refused row now w b =
      (committed-Kept w.db _ ((k.backoff (row.id ∷ []) now).at w.db) b.0, b.1)

  and_then-Both :
      (f : World → Ended × World) (r : Ended × World)
      → Both r.1
      → ((v : World) → Both v → Both (f v).1)
      → Both (and_then f r).1
  and_then-Both f (sent, w) b h = h w b
  and_then-Both f (stopped, w) b h = b
  and_then-Both f (crashed, w) b h = b
  and_then-Both f (exhausted, w) b h = b

  send_batch-Both :
      (rows : List OutboxRow) (now : ℕ) (w : World) → Both w → Both (send_batch rows now w).1
  unfolding send_batch send_row
  send_batch-Both [] now w b = b
  send_batch-Both (row ∷ rows) now w b =
      and_then-Both (λ v. send_batch rows now v) (send_row row now w)
        (by_answer-Both (next_answer w.answers) row now w b) (λ v c. send_batch-Both rows now v c)

  drain-Both : (rounds now : ℕ) (w : World) → Both w → Both (drain rounds now w).1
  unfolding drain
  drain-Both zero now w b = b
  drain-Both (suc rounds) now w b =
      round (pending_outbox 20 w.db) (λ v c. drain-Both rounds now v c)
    where
      round :
          (rows : List OutboxRow)
          → ((v : World) → Both v → Both (drain rounds now v).1)
          → (let r : Ended × World = elim rows [
            | [] ↦ (sent, w)
            | row ∷ rows ↦ and_then (λ v. drain rounds now v) (send_batch (row ∷ rows) now w)
          ] in
              Both r.1)
      round [] ih = b
      round (row ∷ rows) ih =
          and_then-Both (λ v. drain rounds now v) (send_batch (row ∷ rows) now w)
            (send_batch-Both (row ∷ rows) now w b) ih

  recover-Both : (now : ℕ) (r : Ended × World) → Both r.1 → Both (recover now r)
  recover-Both now (crashed, w) b = (
    committed-Kept w.db _ ((k.backoff (map (λ r. r.id) (pending_outbox 1 w.db)) now).at w.db) b.0,
    b.1,
  )
  recover-Both now (sent, w) b = b
  recover-Both now (stopped, w) b = b
  recover-Both now (exhausted, w) b = b

  set_alarm-Both :
      (rearm : Bool) (due : Option ℕ) (w : World) → Both w → Both (set_alarm rearm due w)
  set_alarm-Both rearm none w b = b
  set_alarm-Both rearm (some due) w b = ground arith

  pub settle-Kept :
      (rearm : Bool) (now : ℕ) (w : World)
      → P w.db
      → Q w.d1
      → P (settle rearm now w).db × Q (settle rearm now w).d1
  unfolding settle flush
  settle-Kept rearm now w p q =
      set_alarm-Both rearm _ _
        (recover-Both now _ (drain-Both (length w.db.outbox + 2) now w (p, q)))
