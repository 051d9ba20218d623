-- ===== src/Accounts/Forget/Absent.antt =====
-- server/src/do/group/roster.ts, `forgetProfile`: the account has no place in the group afterwards,
-- and no flush gives it one.
use opensplit.Prelude.{
  ℕ, ◌≡◌, refl, Bool, false, Option, none, some, List, [], ◌∷◌, any_row, update_where, Bool-cases,
  inl, inr, arith,
}
use opensplit.Prelude.Text.{Text}
use opensplit.Group.Schema.{MemberRow, MetaRow}
use opensplit.Group.Tables.{Db, OutboxRow, OutboxPayload, membership, link_token, group_purged}
use opensplit.Group.Action.{Action, Outcome, done, thrown, ◌>>=◌}
use opensplit.Group.Action.Keeps.{
  After, Keeps, Keeps-pure, Keeps-if, Keeps-run_if, Keeps-bind, Keeps-gets, Keeps-modify, Keeps-if,
  Keeps-run_if, Preserving,
}
use opensplit.Group.Store.{
  next_seq, require_meta, set_members, update_member_row, empty_tables, purge, holds,
}
use opensplit.Group.Upkeep.{
  touch_activity, stage, stage_purge, unschedule, clear_outbox, backoff_outbox, schedule_at,
}
use opensplit.Group.Roster.Accounts.{forget_place, forget_profile, in_group, Forgotten}
use opensplit.Directory.Apply.{Applied, applied, account_gone}
use opensplit.Flush.{record_sent, forget_gone}

abbrev pub has_profile : ℕ → List MemberRow → Bool
has_profile p rows = any_row (λ m. holds m.profile_id p) rows

-- The account has no place in the group.
abbrev pub Absent : ℕ → Db → Type 0
Absent p s = has_profile p s.members ≡ false

pub absent_update :
    (p : ℕ) (q : MemberRow → Bool) (change : MemberRow → MemberRow) (rows : List MemberRow)
    → ((r : MemberRow) → (change r).profile_id ≡ none)
    → has_profile p rows ≡ false
    → has_profile p (update_where q change rows) ≡ false
absent_update p q change [] c h = refl
absent_update p q change (r ∷ rows) c h = elim (Bool-cases (q r)) [
  | inl hit ↦ rw (hit, c r) (absent_update p q change rows c (ground arith))
  | inr miss ↦ ground (arith, absent_update p q change rows c)
]

module _ (p : ℕ) where
  abbrev KeepsAbsent : {A : Type 0} → Action A → Type 0
  KeepsAbsent m = Keeps (Preserving (Absent p)) m

  pub next_seq-Absent : KeepsAbsent next_seq
  unfolding next_seq ◌>>=◌
  next_seq-Absent = record { at = λ s h. h }

  pub set_members-Absent :
      (rows : List MemberRow) (s : Db)
      → has_profile p rows ≡ false
      → After (Absent p) (set_members rows s)
  unfolding set_members ◌>>=◌
  set_members-Absent rows s h = ground (arith, h)

  update_member_row-Absent :
      (id : ℕ) (change : MemberRow → MemberRow)
      → ((r : MemberRow) → (change r).profile_id ≡ none)
      → KeepsAbsent (update_member_row id change)
  unfolding update_member_row ◌>>=◌
  update_member_row-Absent id change c = record {
    at = λ s. weaken s _ (λ h. set_members-Absent _ s (absent_update p _ change s.members c h));
  }
    where
      weaken :
          (s : Db) (o : Outcome Unit)
          → (Absent p s → After (Absent p) o)
          → After (λ t. Absent p s → Absent p t) o
      weaken s (done a t) h = h
      weaken s (thrown e) h = tt

  pub touch_activity-Absent : (now : ℕ) → KeepsAbsent (touch_activity now)
  unfolding touch_activity
  touch_activity-Absent now = Keeps-modify _ (λ s h. h)

  pub purge-Absent : (now : ℕ) → KeepsAbsent (purge now)
  unfolding purge next_seq require_meta empty_tables ◌>>=◌
  purge-Absent now = record { at = λ s. ground arith }

  pub stage_purge-Absent : (id now : ℕ) → KeepsAbsent (stage_purge id now)
  unfolding stage_purge stage
  stage_purge-Absent id now = Keeps-modify _ (λ s h. h)

  forget_place-Absent :
      (meta : MetaRow) (m : MemberRow) (profile : ℕ) (name : Option Text) (now : ℕ)
      → KeepsAbsent (forget_place meta m profile name now)
  unfolding forget_place
  forget_place-Absent meta m profile name now = Keeps-bind _ _ (Keeps-gets _) λ others.
      Keeps-if others _ _
        (Keeps-bind _ _ next_seq-Absent λ seq.
          Keeps-bind _ _ (update_member_row-Absent m.id _ λ r. refl)
            λ _. Keeps-bind _ _ (touch_activity-Absent now) λ _. Keeps-pure _)
        (Keeps-bind _ _ (purge-Absent now)
          λ _. Keeps-bind _ _ (stage_purge-Absent meta.id now) λ _. Keeps-pure _)

  in_group-Absent :
      (meta : Option MetaRow) (m : Option MemberRow) (k : MetaRow → MemberRow → Action Forgotten)
      → ((a : MetaRow) (b : MemberRow) → KeepsAbsent (k a b))
      → KeepsAbsent (in_group meta m k)
  in_group-Absent none m k h = Keeps-pure _
  in_group-Absent (some a) none k h = Keeps-pure _
  in_group-Absent (some a) (some b) k h = h a b

  pub forget_profile-Absent :
      (profile : ℕ) (name : Option Text) (now : ℕ) → KeepsAbsent (forget_profile profile name now)
  unfolding forget_profile
  forget_profile-Absent profile name now = Keeps-bind _ _ (Keeps-gets _) λ meta.
      Keeps-bind _ _ (Keeps-gets _)
        λ place. in_group-Absent meta place _ (λ a b. forget_place-Absent a b profile name now)

  forget_gone-Absent :
      (payload : OutboxPayload) (outcome : Applied) (now : ℕ)
      → KeepsAbsent (forget_gone payload outcome now)
  forget_gone-Absent (membership w) applied now = Keeps-pure tt
  forget_gone-Absent (membership w) account_gone now =
      Keeps-bind _ _ (forget_profile-Absent w.profile_id none now) λ _. Keeps-pure tt
  forget_gone-Absent (link_token w) outcome now = Keeps-pure tt
  forget_gone-Absent (group_purged w) outcome now = Keeps-pure tt

  clear_outbox-Absent : (ids : List ℕ) → KeepsAbsent (clear_outbox ids)
  unfolding clear_outbox unschedule
  clear_outbox-Absent ids = search (Keeps-bind, Keeps-gets, Keeps-run_if, Keeps-modify) depth 20

  pub record_sent-Absent :
      (row : OutboxRow) (outcome : Applied) (now : ℕ) → KeepsAbsent (record_sent row outcome now)
  unfolding record_sent
  record_sent-Absent row outcome now =
      Keeps-bind _ _ (clear_outbox-Absent (row.id ∷ []))
        (λ _. forget_gone-Absent row.payload outcome now)

  pub backoff_outbox-Absent : (ids : List ℕ) (now : ℕ) → KeepsAbsent (backoff_outbox ids now)
  unfolding backoff_outbox schedule_at ◌>>=◌
  backoff_outbox-Absent [] now = Keeps-pure tt
  backoff_outbox-Absent (id ∷ ids) now = record { at = λ s h. h }
