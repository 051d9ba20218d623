-- ===== src/Group/Object.antt =====
-- server/src/do/group/index.ts: the methods of the object, each one transaction, and the requests
-- that a caller can make of it.
use opensplit.Prelude.{
  ℕ, Bool, ◌&&◌, Option, none, some, List, [], ◌∷◌, is_some, is_none, ltb, ◌==◌, same, case_of,
  if◌then◌else◌,
}
use opensplit.Prelude.Text.{Text, Text-discrete, Option-Text-discrete}
use opensplit.Group.Schema.{
  MemberRow, MetaRow, Entry, EntryInput, MemberInput, GroupInput, JoinRequest,
}
use opensplit.Group.Tables.{Db, InviteRow}
use opensplit.Group.Action.{Action, pure, gets, run_if, attempt, ◌>>=◌, ◌>>◌}
use opensplit.Group.Store.{current_seq, require_meta, find_member_by_profile, act_as}
use opensplit.Group.Upkeep.{touch_activity, collect_unowned}
use opensplit.Group.Ledger.{put_entry}
use opensplit.Group.Roster.Settings.{create_group, update_group}
use opensplit.Group.Roster.Members.{put_member}
use opensplit.Group.Roster.Accounts.{forget_profile, hand_over}
use opensplit.Group.Invites.Links.{
  GroupLink, create_invite, create_group_link, live_link, revoke_group_link,
}
use opensplit.Group.Invites.Join.{join}

-- The value of a write, and the sequence number that it spent, if it changed anything.
pub record Committed (A : Type 0) : Type 0 where
  pub value : A
  pub spent : Option ℕ

-- The transaction of `write`: a body that spent a sequence number counts as use of the group.
unfoldable pub write_body : {A : Type 0} → ℕ → Action A → Action (Committed A)
write_body now body = do
  before ← gets current_seq
  value ← body
  after ← gets current_seq
  run_if (ltb before after) (touch_activity now)
  pure (record { value = value; spent = if ltb before after then some after else none })

-- `putGroup`: creates the group at this object's id, or edits it.
unfoldable pub put_group : ℕ → GroupInput → ℕ → ℕ → Action MetaRow
put_group group_id input profile now = do
  nothing_here ← gets (λ s. is_none s.meta && is_none s.tombstone)
  if nothing_here
      then (do create_group group_id input profile now; require_meta)
      else (do c ← act_as profile now; update_group input c; require_meta)

-- A leave that is asked for again after the response was lost.
unfoldable pub acknowledges : ℕ → MemberInput → MemberRow → Bool
acknowledges id input self =
    self.id == id
    && is_some self.left_at
    && is_some input.left_at
    && same Text-discrete input.display_name self.display_name
    && same Option-Text-discrete input.upi_vpa self.upi_vpa

abbrev pub acknowledged : ℕ → MemberInput → Option MemberRow → Option MemberRow
acknowledged id input none = none
acknowledged id input (some self) = if acknowledges id input self then some self else none

-- `putMember`
unfoldable pub put_member_as : ℕ → MemberInput → ℕ → ℕ → Action MemberRow
unfolding acknowledges
put_member_as id input profile now = do
  self ← gets (λ s. find_member_by_profile s profile)
  case_of (acknowledged id input self) (do c ← act_as profile now; put_member id input c) pure

-- `putEntry`
unfoldable pub put_entry_as : ℕ → EntryInput → ℕ → ℕ → Action Entry
put_entry_as id input profile now = do c ← act_as profile now; put_entry id input c

-- `createInvite`
unfoldable pub create_invite_as : ℕ → ℕ → ℕ → Action InviteRow
create_invite_as id profile now = do c ← act_as profile now; create_invite id c

-- `createLink`
unfoldable pub create_link : ℕ → ℕ → Action GroupLink
create_link profile now = do c ← act_as profile now; create_group_link c

-- `revokeLink`
unfoldable pub revoke_link : ℕ → ℕ → Action (Option ℕ)
revoke_link profile now = do c ← act_as profile now; revoke_group_link c

-- `liveLink`: membership required, since this hands a working link out.
unfoldable pub live_link_as : ℕ → ℕ → Action (Option GroupLink)
live_link_as profile now = do act_as profile now; gets (λ s. live_link s now)

pub record Joined : Type 0 where
  pub group_id : ℕ
  pub member : MemberRow

-- `join`
unfoldable pub join_group : ℕ → ℕ → JoinRequest → ℕ → Action Joined
join_group token profile request now = do
  m ← join token profile request now
  meta ← require_meta
  pure (record { group_id = meta.id; member = m })

-- The methods that change the database, with what their callers hand in.
pub data Request : Type 0 where
  puts_group : ℕ → GroupInput → ℕ → Request
  puts_member : ℕ → MemberInput → ℕ → Request
  puts_entry : ℕ → EntryInput → ℕ → Request
  creates_invite : ℕ → ℕ → Request
  creates_link : ℕ → Request
  revokes_link : ℕ → Request
  joins : ℕ → ℕ → JoinRequest → Request
  forgets : ℕ → Option Text → Request
  hands_over : ℕ → ℕ → Request
  runs_upkeep : Request

abbrev and_done : {A : Type 0} → Action A → Action (Unit {0})
and_done m = do m; pure tt

-- The transaction of a request. `forgetProfile`, `handOver` and the upkeep are no writes: they run
-- bare.
unfoldable pub run_request : Request → ℕ → Action (Unit {0})
unfolding write_body put_group put_member_as put_entry_as create_invite_as create_link revoke_link
    join_group
run_request (puts_group id input profile) now =
    and_done (write_body now (put_group id input profile now))
run_request (puts_member id input profile) now =
    and_done (write_body now (put_member_as id input profile now))
run_request (puts_entry id input profile) now =
    and_done (write_body now (put_entry_as id input profile now))
run_request (creates_invite id profile) now =
    and_done (write_body now (create_invite_as id profile now))
run_request (creates_link profile) now = and_done (write_body now (create_link profile now))
run_request (revokes_link profile) now = and_done (write_body now (revoke_link profile now))
run_request (joins token profile request) now =
    and_done (write_body now (join_group token profile request now))
run_request (forgets profile name) now = and_done (forget_profile profile name now)
run_request (hands_over profile heir) now = and_done (hand_over profile heir now)
run_request runs_upkeep now = and_done (collect_unowned now)

-- One request after another: the object runs one at a time.
unfoldable pub serve : Db → List (ℕ × Request) → Db
unfolding run_request
serve s [] = s
serve s ((now, request) ∷ rest) = serve (attempt (run_request request now) s).1 rest

-- The database of a new object, with what the runtime's `crypto.randomUUID()` will answer.
unfoldable pub fresh_db : (ℕ → ℕ) → Db
fresh_db random = record {
  counter = none;
  members = [];
  meta = none;
  tombstone = none;
  entries = [];
  entry_payers = [];
  entry_shares = [];
  events = [];
  invites = [];
  group_link = none;
  outbox = [];
  last_outbox_id = 0;
  schedule = none;
  random = random;
  drawn = 0;
}
