-- ===== src/Group/Refusal.antt =====
-- How the object says no (server/src/do/group/refusal.ts, the codes in
-- server/src/schemas/common.ts). The messages for people are left out.
use opensplit.Prelude.{ℕ}

pub data RefusalCode : Type 0 where
  not_member no_group group_purged no_such_entry no_such_member : RefusalCode
  unbalanced stale_base forbidden not_settled : RefusalCode
  invite_invalid invite_spent invite_expired already_member slot_taken malformed : RefusalCode

-- What the caller of the object receives: `{ ok: true, value }` or `{ ok: false, error }`.
pub data Result (A : Type 0) : Type 0 where
  ok : A → Result A
  err : RefusalCode → Result A

pub data Retry : Type 0 where
  stale permanent transient : Retry

-- Only a stale base is worth composing again.
unfoldable pub kind_of : RefusalCode → Retry
kind_of stale_base = stale
kind_of _ = permanent

unfoldable pub status_for : RefusalCode → ℕ
status_for not_member = 403
status_for forbidden = 403
status_for no_group = 404
status_for no_such_entry = 404
status_for no_such_member = 404
status_for invite_invalid = 404
status_for group_purged = 410
status_for invite_expired = 410
status_for stale_base = 409
status_for not_settled = 409
status_for invite_spent = 409
status_for already_member = 409
status_for slot_taken = 409
status_for unbalanced = 422
status_for malformed = 400
