-- ===== src/Flush/Weight.antt =====
-- What a flush (server/src/do/group/index.ts) has left to do: the staged rows, and the one that the
-- end of the group may still stage.
use opensplit.Prelude.{
  ℕ, ◌+◌, ◌≤◌, ◌≡◌, Bool, true, not, Option, none, some, List, [], ◌∷◌, ◌++◌, length, rows_where,
  any_row, is_some, ◌==◌, arith, if◌then◌else◌, Bool-cases, inl, inr,
}
use opensplit.Prelude.Text.{Text}
use opensplit.Group.Schema.{MemberRow, MetaRow}
use opensplit.Group.Tables.{Db, OutboxRow, OutboxPayload, membership, link_token, group_purged}
use opensplit.Group.Action.{Action, Outcome, done, thrown, pure, ◌>>=◌, ◌>>◌, continue}
use opensplit.Group.Action.Keeps.{
  Order, After, Keeps, Keeps-pure, Keeps-bind, Keeps-gets, Keeps-modify, Keeps-checked, keeps_rules,
}
use opensplit.Group.Store.{
  next_seq, require_meta, set_members, update_member_row, empty_tables, purge,
}
use opensplit.Group.Upkeep.{
  touch_activity, stage, stage_purge, unschedule, clear_outbox, in_array, is_nil,
}
use opensplit.Group.Roster.Accounts.{forget_place, forget_profile, in_group, Forgotten}
use opensplit.Directory.Apply.{Applied, applied, account_gone}
use opensplit.Flush.{record_sent, forget_gone}

abbrev pub weight : Db → ℕ
weight s = length s.outbox + (if is_some s.meta then 1 else 0)

abbrev pub Lightens : Order
Lightens = record {
  rel = λ s t. weight t ≤ weight s;
  reflexive = λ s. omega arith;
  transitive = λ s t u p q. omega arith;
}

next_seq-Lightens : Keeps Lightens next_seq
unfolding next_seq ◌>>=◌
next_seq-Lightens = record { at = λ s. omega arith }

set_members-Lightens : (rows : List MemberRow) → Keeps Lightens (set_members rows)
unfolding set_members
set_members-Lightens rows = Keeps-checked _ _ _ λ ids.
    Keeps-checked _ _ _ λ profiles. Keeps-checked _ _ _ λ named. Keeps-modify _ (λ s. omega arith)

update_member_row-Lightens :
    (id : ℕ) (change : MemberRow → MemberRow) → Keeps Lightens (update_member_row id change)
unfolding update_member_row
update_member_row-Lightens id change = search (Keeps-bind, Keeps-gets, set_members-Lightens)

touch_activity-Lightens : (now : ℕ) → Keeps Lightens (touch_activity now)
unfolding touch_activity
touch_activity-Lightens now = Keeps-modify _ (λ s. ground arith)

-- The end of a group takes its metadata with it.
purge_lightens : (now : ℕ) (s : Db) → After (λ t. weight t + 1 ≤ weight s) (purge now s)
unfolding purge next_seq require_meta empty_tables ◌>>=◌
purge_lightens now s = ground arith

length-append_one : (xs : List OutboxRow) (x : OutboxRow) → length (xs ++ x ∷ []) ≡ length xs + 1
length-append_one [] x = omega arith
length-append_one (y ∷ xs) x = omega (arith, length-append_one xs x)

then_stage :
    (o : Outcome (Unit {0})) (n id now : ℕ) (answer : Forgotten)
    → After (λ t. weight t + 1 ≤ n) o
    → After (λ t. weight t ≤ n) (continue (λ _. do stage_purge id now; pure answer) o)
unfolding stage_purge stage ◌>>=◌
then_stage (done a t) n id now answer h = omega (arith, length-append_one t.outbox)
then_stage (thrown e) n id now answer h = tt

purge_and_stage-Lightens :
    (now id : ℕ) (answer : Forgotten)
    → Keeps Lightens (do purge now; stage_purge id now; pure answer)
unfolding ◌>>=◌
purge_and_stage-Lightens now id answer = record {
  at = λ s. then_stage (purge now s) (weight s) id now answer (purge_lightens now s);
}

forget_place-Lightens :
    (meta : MetaRow) (m : MemberRow) (profile : ℕ) (name : Option Text) (now : ℕ)
    → Keeps Lightens (forget_place meta m profile name now)
unfolding forget_place
forget_place-Lightens meta m profile name now =
    search
      (
        keeps_rules, next_seq-Lightens, update_member_row-Lightens, touch_activity-Lightens,
        purge_and_stage-Lightens,
      )
      depth 20

in_group-Lightens :
    (meta : Option MetaRow) (m : Option MemberRow) (k : MetaRow → MemberRow → Action Forgotten)
    → ((a : MetaRow) (b : MemberRow) → Keeps Lightens (k a b))
    → Keeps Lightens (in_group meta m k)
in_group-Lightens none m k h = Keeps-pure _
in_group-Lightens (some a) none k h = Keeps-pure _
in_group-Lightens (some a) (some b) k h = h a b

forget_profile-Lightens :
    (profile : ℕ) (name : Option Text) (now : ℕ) → Keeps Lightens (forget_profile profile name now)
unfolding forget_profile
forget_profile-Lightens profile name now =
    search (keeps_rules, in_group-Lightens, forget_place-Lightens) depth 20

forget_gone-Lightens :
    (payload : OutboxPayload) (outcome : Applied) (now : ℕ)
    → Keeps Lightens (forget_gone payload outcome now)
forget_gone-Lightens (membership w) applied now = Keeps-pure tt
forget_gone-Lightens (membership w) account_gone now =
    Keeps-bind _ _ (forget_profile-Lightens w.profile_id none now) λ _. Keeps-pure tt
forget_gone-Lightens (link_token w) outcome now = Keeps-pure tt
forget_gone-Lightens (group_purged w) outcome now = Keeps-pure tt

-- Whether a row is staged.
abbrev pub is_staged : ℕ → List OutboxRow → Bool
is_staged id rows = any_row (λ r. r.id == id) rows

abbrev left : ℕ → List OutboxRow → List OutboxRow
left id rows = rows_where (λ r. not (in_array r.id (id ∷ []))) rows

length-left : (id : ℕ) (rows : List OutboxRow) → length (left id rows) ≤ length rows
length-left id [] = omega arith
length-left id (r ∷ rows) = ground (arith, length-left id rows)

length-left_staged :
    (id : ℕ) (rows : List OutboxRow)
    → is_staged id rows ≡ true
    → length (left id rows) + 1 ≤ length rows
length-left_staged id [] h = cc
length-left_staged id (r ∷ rows) h = ground (arith, length-left id rows, length-left_staged id rows)

clear_outbox-After :
    (P : Db → Type 0) (id : ℕ) (s : Db)
    → P (record s { outbox = left id s.outbox })
    → P (record s { outbox = left id s.outbox; schedule = none })
    → After P (clear_outbox (id ∷ []) s)
unfolding clear_outbox unschedule ◌>>=◌
clear_outbox-After P id s h k = elim (Bool-cases (is_nil (left id s.outbox))) [
  | inl e ↦ rw e k
  | inr e ↦ rw e h
]

clear_outbox-Lightens : (id : ℕ) → Keeps Lightens (clear_outbox (id ∷ []))
clear_outbox-Lightens id = record {
  at = λ s.
      clear_outbox-After (λ t. weight t ≤ weight s) id s (omega (arith, length-left id s.outbox))
        (omega (arith, length-left id s.outbox));
}

pub record_sent-Lightens :
    (row : OutboxRow) (outcome : Applied) (now : ℕ) → Keeps Lightens (record_sent row outcome now)
unfolding record_sent
record_sent-Lightens row outcome now =
    search (keeps_rules, clear_outbox-Lightens, forget_gone-Lightens) depth 20

lighter :
    {A : Type 0} (o : Outcome (Unit {0})) (k : Action A) (n : ℕ)
    → After (λ t. weight t + 1 ≤ n) o
    → Keeps Lightens k
    → After (λ t. weight t + 1 ≤ n) (continue (λ _. k) o)
lighter (thrown e) k n h l = tt
lighter {A} (done a t) k n h l = go (k t) (l.at t)
  where
    go : (o : Outcome A) → After (λ u. weight u ≤ weight t) o → After (λ u. weight u + 1 ≤ n) o
    go (thrown e) g = tt
    go (done b u) g = omega arith

-- Sending a row that is staged leaves less to do.
pub record_sent_lightens :
    (row : OutboxRow) (outcome : Applied) (now : ℕ) (s : Db)
    → is_staged row.id s.outbox ≡ true
    → After (λ t. weight t + 1 ≤ weight s) (record_sent row outcome now s)
unfolding record_sent ◌>>=◌
record_sent_lightens row outcome now s h =
    lighter (clear_outbox (row.id ∷ []) s) _ (weight s)
      (clear_outbox-After (λ t. weight t + 1 ≤ weight s) row.id s
        (omega (arith, length-left_staged row.id s.outbox h))
        (omega (arith, length-left_staged row.id s.outbox h)))
      (forget_gone-Lightens row.payload outcome now)
