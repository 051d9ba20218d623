-- ===== src/Group/Frame.antt =====
-- The changes of which every operation but `putEntry` and the end of a group is composed. A
-- relation on databases that each of them respects is respected by all those operations.

pub mod Roster
pub mod Invites
pub mod Ledger
pub mod Object
use opensplit.Prelude.{
  ℕ, ◌+◌, ◌≡◌, refl, inl, inr, Bool-cases, length, rows_where, Bool, true, false, not, ◌&&◌, Option,
  none, some, List, [], ◌∷◌, ◌++◌, any_row, ◌==◌,
}
use opensplit.Group.Entries.{sum_payers, sum_shares}
use opensplit.Group.Ledger.{upsert_entry, replace_payers, replace_shares}
use opensplit.Group.Schema.{EntryRow, MoneyRow, Share, MemberRow, MetaRow, TombstoneRow}
use opensplit.Group.Tables.{
  Db, EventBody, EventRow, InviteRow, LinkKind, GroupLinkRow, OutboxPayload, OutboxRow,
}
use opensplit.Group.Action.{Action, modify, ◌>>=◌}
use opensplit.Group.Action.Keeps.{
  Order, After, Keeps, Keeps-pure, Keeps-bind, Keeps-checked, Keeps-modify, Keeps-lookup,
  Keeps-gets, keeps_rules,
}
use opensplit.Group.Store.{
  current_seq, next_seq, random_uuid, require_meta, require_active_member, require_member,
  distinct_ids, distinct_profiles, set_members, insert_member, update_member_row, empty_tables,
  purge, act_as,
}
use opensplit.Group.Upkeep.{
  touch_activity, stage, stage_membership, stage_link_token, stage_purge, collect_unowned,
}
use opensplit.Group.Events.{Written, append}

-- An event behind the others, at a position that none of them has.
abbrev pub IsFree : Db → EventRow → Type 0
IsFree s e = any_row (λ x. x.seq == e.seq && x.ordinal == e.ordinal) s.events ≡ false

abbrev pub staged : Db → OutboxPayload → ℕ → Db
staged s payload now = record s {
  outbox =
      s.outbox
      ++ record { id = s.last_outbox_id + 1; payload = payload; attempts = 0; created_at = now }
        ∷ [];
  last_outbox_id = s.last_outbox_id + 1;
}

abbrev pub with_entry : EntryRow → List MoneyRow → List Share → Db → Db
with_entry row payers shares s = record s {
  entries = upsert_entry row s.entries;
  entry_payers = replace_payers row.id payers s.entry_payers;
  entry_shares = replace_shares row.id shares s.entry_shares;
}

pub record Frame (O : Order) : Type 0 where
  pub counter : (s : Db) (n : ℕ) → n ≡ current_seq s + 1 → O.rel s (record s { counter = some n })
  pub drawn : (s : Db) → O.rel s (record s { drawn = s.drawn + 1 })
  pub members :
      (s : Db) (rows : List MemberRow)
      → distinct_ids rows ≡ true
      → distinct_profiles rows ≡ true
      → O.rel s (record s { members = rows })
  pub meta : (s : Db) (row : Option MetaRow) → O.rel s (record s { meta = row })
  pub events :
      (s : Db) (e : EventRow) → IsFree s e → O.rel s (record s { events = s.events ++ e ∷ [] })
  pub invites : (s : Db) (rows : List InviteRow) → O.rel s (record s { invites = rows })
  pub group_link : (s : Db) (row : Option GroupLinkRow) → O.rel s (record s { group_link = row })
  pub outbox : (s : Db) (payload : OutboxPayload) (now : ℕ) → O.rel s (staged s payload now)
  pub written :
      (s : Db) (row : EntryRow) (payers : List MoneyRow) (shares : List Share)
      → sum_payers payers ≡ row.amount_minor
      → sum_shares shares ≡ row.amount_minor
      → O.rel s (with_entry row payers shares s)
  pub emptied : (s : Db) (grave : TombstoneRow) → O.rel s (empty_tables grave s)

module _ {O : Order} where
  pub next_seq-Keeps : Frame O → Keeps O next_seq
  unfolding next_seq ◌>>=◌
  next_seq-Keeps f = record { at = λ s. f.counter s (current_seq s + 1) refl }

  pub random_uuid-Keeps : Frame O → Keeps O random_uuid
  unfolding random_uuid ◌>>=◌
  random_uuid-Keeps f = record { at = f.drawn }

  pub require_meta-Keeps : Keeps O require_meta
  unfolding require_meta
  require_meta-Keeps = Keeps-lookup _ _

  pub require_active_member-Keeps : (p : ℕ) → Keeps O (require_active_member p)
  unfolding require_active_member
  require_active_member-Keeps p = Keeps-lookup _ _

  pub require_member-Keeps : (id : ℕ) → Keeps O (require_member id)
  unfolding require_member
  require_member-Keeps id = Keeps-lookup _ _

  set_members-Keeps : Frame O → (rows : List MemberRow) → Keeps O (set_members rows)
  unfolding set_members
  set_members-Keeps f rows = Keeps-checked _ _ _ λ ids.
      Keeps-checked _ _ _
        λ profiles. Keeps-checked _ _ _ λ named. Keeps-modify _ (λ s. f.members s rows ids profiles)

  pub insert_member-Keeps : Frame O → (row : MemberRow) → Keeps O (insert_member row)
  unfolding insert_member
  insert_member-Keeps f row = search (Keeps-bind, Keeps-gets, set_members-Keeps)

  pub update_member_row-Keeps :
      Frame O → (id : ℕ) (change : MemberRow → MemberRow) → Keeps O (update_member_row id change)
  unfolding update_member_row
  update_member_row-Keeps f id change = search (Keeps-bind, Keeps-gets, set_members-Keeps)

  append-After :
      Frame O
      → (w : Written) (body : EventBody) (s : Db) (taken : Bool)
      → any_row
          (λ x. x.seq == w.seq && x.ordinal == length (rows_where (λ e. e.seq == w.seq) s.events))
          s.events
        ≡ taken
      → After (O.rel s) (append w body s)
  unfolding append ◌>>=◌ random_uuid
  append-After f w body s true e = rw e tt
  append-After f w body s false e = rw e (
      O.transitive s (record s { drawn = s.drawn + 1 }) _ (f.drawn s)
        (f.events (record s { drawn = s.drawn + 1 }) _ e))

  pub append-Keeps : Frame O → (w : Written) (body : EventBody) → Keeps O (append w body)
  append-Keeps f w body = record { at = λ s. append-After f w body s _ refl }

  pub touch_activity-Keeps : Frame O → (now : ℕ) → Keeps O (touch_activity now)
  unfolding touch_activity
  touch_activity-Keeps f now = Keeps-modify _ (λ s. f.meta s _)

  stage-Keeps : Frame O → (payload : OutboxPayload) (now : ℕ) → Keeps O (stage payload now)
  unfolding stage
  stage-Keeps f payload now = Keeps-modify _ (λ s. f.outbox s payload now)

  pub stage_membership-Keeps :
      Frame O → (p : ℕ) (left : Option ℕ) (now : ℕ) → Keeps O (stage_membership p left now)
  unfolding stage_membership
  stage_membership-Keeps f p left now = search (Keeps-bind, require_meta-Keeps, stage-Keeps)

  pub stage_link_token-Keeps :
      Frame O → (token : ℕ) (kind : LinkKind) (now : ℕ) → Keeps O (stage_link_token token kind now)
  unfolding stage_link_token
  stage_link_token-Keeps f token kind now = search (Keeps-bind, require_meta-Keeps, stage-Keeps)

  pub stage_purge-Keeps : Frame O → (id now : ℕ) → Keeps O (stage_purge id now)
  unfolding stage_purge
  stage_purge-Keeps f id now = stage-Keeps f _ now

  pub purge-Keeps : Frame O → (now : ℕ) → Keeps O (purge now)
  unfolding purge
  purge-Keeps f now =
      Keeps-bind _ _ (next_seq-Keeps f)
        λ seq. Keeps-bind _ _ require_meta-Keeps λ m. Keeps-modify _ (λ s. f.emptied s _)

  pub collect_unowned-Keeps : Frame O → (now : ℕ) → Keeps O (collect_unowned now)
  unfolding collect_unowned
  collect_unowned-Keeps f now = search (keeps_rules, purge-Keeps, stage_purge-Keeps) depth 20

  pub act_as-Keeps : (profile now : ℕ) → Keeps O (act_as profile now)
  unfolding act_as
  act_as-Keeps profile now = search (keeps_rules, require_meta-Keeps, require_active_member-Keeps)
