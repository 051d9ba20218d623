-- ===== src/Group/Notices.antt =====
-- server/src/do/group/notices.ts: what the change committed at a sequence number is worth waking
-- somebody for, read from what was appended.
use opensplit.Prelude.{ℕ, Bool, true, false, ◌&&◌, Option, none, some, List, [], ◌∷◌, ◌==◌}
use opensplit.Group.Tables.{
  EventBody, EventRow, entry, member, member_joined, member_left, subject_id,
}
use opensplit.Group.Action.{Action, gets, ◌>>=◌}
use opensplit.Group.Store.{require_meta}

-- The data of a push message. The kind travels with the subject in the event's body.
pub record PushData : Type 0 where
  pub group_id : ℕ
  pub event_id : ℕ
  pub body : EventBody
  pub subject_id : ℕ

-- `notifiableKinds`: an expense, somebody arriving, somebody leaving.
abbrev pub is_notifiable : EventBody → Bool
is_notifiable (entry _ _) = true
is_notifiable (member member_joined _ _) = true
is_notifiable (member member_left _ _) = true
is_notifiable _ = false

abbrev notice : ℕ → EventRow → Option ℕ → List PushData → List PushData
notice group_id e none rest = rest
notice group_id e (some subject) rest =
    record { group_id = group_id; event_id = e.id; body = e.body; subject_id = subject } ∷ rest

unfoldable pub notices_at : ℕ → ℕ → List EventRow → List PushData
notices_at group_id seq [] = []
notices_at group_id seq (e ∷ es) =
    let rest = notices_at group_id seq es in
    elim (e.seq == seq && is_notifiable e.body) [
      | true ↦ notice group_id e (subject_id e.body) rest
      | false ↦ rest
    ]

unfoldable pub pending_notices : ℕ → Action (List PushData)
unfolding notices_at
pending_notices seq = do meta ← require_meta; gets (λ s. notices_at meta.id seq s.events)
