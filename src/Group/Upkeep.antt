-- ===== src/Group/Upkeep.antt =====
-- server/src/do/group/upkeep.ts: what the object owes D1 (the outbox) and its own future (the
-- schedule behind its one alarm).
use opensplit.Prelude.{
  ℕ, ◌+◌, ◌-◌, min, max, Bool, true, false, ◌||◌, not, Option, none, some, List, [], ◌∷◌, ◌++◌,
  take, length, get_or, rows_where, update_where, ◌==◌, case_of, if◌then◌else◌,
}
use opensplit.Group.Schema.{MetaRow}
use opensplit.Group.Tables.{
  Db, OutboxRow, OutboxPayload, membership, link_token, group_purged, LinkKind,
}
use opensplit.Group.Action.{Action, pure, gets, modify, run_if, ◌>>=◌, ◌>>◌}
use opensplit.Group.Store.{require_meta, has_active_accounts, purge}

-- In milliseconds: half a minute, two minutes, ten minutes, an hour.
abbrev pub retry_backoff : List ℕ
retry_backoff = 30000 ∷ 120000 ∷ 600000 ∷ 3600000 ∷ []

unfoldable pub schedule_at : ℕ → Action (Unit {0})
schedule_at at = modify (λ s. record s { schedule = some at })

unfoldable pub unschedule : Action (Unit {0})
unschedule = modify (λ s. record s { schedule = none })

-- The earliest thing owed: there is one chore.
unfoldable pub next_due : Db → Option ℕ
next_due s = s.schedule

abbrev touch : ℕ → Option MetaRow → Option MetaRow
touch now none = none
touch now (some m) = some (record m { last_activity_at = now })

unfoldable pub touch_activity : ℕ → Action (Unit {0})
touch_activity now = modify (λ s. record s { meta = touch now s.meta })

unfoldable pub stage : OutboxPayload → ℕ → Action (Unit {0})
stage payload now = modify (λ s. record s {
  outbox =
      s.outbox
      ++ record { id = s.last_outbox_id + 1; payload = payload; attempts = 0; created_at = now }
        ∷ [];
  last_outbox_id = s.last_outbox_id + 1;
})

unfoldable pub stage_membership : ℕ → Option ℕ → ℕ → Action (Unit {0})
unfolding stage
stage_membership profile left now = do
  meta ← require_meta
  stage
      (membership
        (record { group_id = meta.id; profile_id = profile; left_at = left; updated_at = now }))
      now

unfoldable pub stage_link_token : ℕ → LinkKind → ℕ → Action (Unit {0})
unfolding stage
stage_link_token token kind now = do
  meta ← require_meta
  stage (link_token (record { group_id = meta.id; token = token; token_kind = kind })) now

unfoldable pub stage_purge : ℕ → ℕ → Action (Unit {0})
unfolding stage
stage_purge group_id now = stage (group_purged (record { group_id = group_id })) now

-- Ends a group in which no account participates any more, and says whether it did.
unfoldable pub collect_unowned : ℕ → Action Bool
collect_unowned now = do
  found ← gets (λ s. s.meta)
  active ← gets has_active_accounts
  case_of found (pure false)
      λ meta. if active then pure false else (do purge now; stage_purge meta.id now; pure true)

-- Rows enter in the order of their ids and keep it.
unfoldable pub pending_outbox : ℕ → Db → List OutboxRow
pending_outbox limit s = take limit s.outbox

abbrev pub in_array : ℕ → List ℕ → Bool
in_array x [] = false
in_array x (y ∷ ys) = x == y || in_array x ys

abbrev pub is_nil {ℓ} : {A : Type ℓ} → List A → Bool
is_nil [] = true
is_nil (_ ∷ _) = false

-- Removes what D1 has taken. An empty outbox owes the alarm nothing.
unfoldable pub clear_outbox : List ℕ → Action (Unit {0})
clear_outbox ids = do
  modify (λ s. record s { outbox = rows_where (λ r. not (in_array r.id ids)) s.outbox })
  idle ← gets (λ s. is_nil s.outbox)
  run_if idle unschedule

unfoldable pub most_attempts : List OutboxRow → ℕ
most_attempts [] = 0
most_attempts (r ∷ rs) = max r.attempts (most_attempts rs)

-- `RETRY_BACKOFF[Math.min(worst, RETRY_BACKOFF.length) - 1] ?? RETRY_BACKOFF[0]`: the index -1 of
-- the source, which is out of range, and 0 here both give the first delay.
unfoldable pub backoff_for : ℕ → ℕ
backoff_for worst = get_or retry_backoff (min worst (length retry_backoff) - 1) 30000

-- Counts a failed flush and schedules the retry.
unfoldable pub backoff_outbox : List ℕ → ℕ → Action (Unit {0})
unfolding schedule_at
backoff_outbox [] now = pure tt
backoff_outbox (id ∷ ids) now = do
  modify (λ s. record s {
    outbox =
        update_where (λ r. in_array r.id (id ∷ ids)) (λ r. record r { attempts = r.attempts + 1 })
          s.outbox;
  })
  rows ← gets (λ s. s.outbox)
  schedule_at (now + backoff_for (if is_nil rows then 1 else most_attempts rows))
