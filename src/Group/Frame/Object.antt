-- ===== src/Group/Frame/Object.antt =====
-- Every request to the object (server/src/do/group/index.ts) is composed of the changes of a
-- frame, and so is every history of requests.
use opensplit.Prelude.{ℕ, List, [], ◌∷◌}
use opensplit.Group.Schema.{EntryInput, MemberInput, GroupInput, JoinRequest}
use opensplit.Group.Tables.{Db}
use opensplit.Group.Action.{Action, pure, attempt, ◌>>◌}
use opensplit.Group.Action.Keeps.{Order, Keeps, Keeps-bind, Keeps-pure, attempt-keeps}
use opensplit.Group.Object.{
  write_body, put_group, put_member_as, put_entry_as, create_invite_as, create_link, revoke_link,
  join_group, Request, puts_group, puts_member, puts_entry, creates_invite, creates_link,
  revokes_link, joins, forgets, hands_over, runs_upkeep, run_request, serve,
}
use opensplit.Group.Frame.{Frame, act_as-Keeps, collect_unowned-Keeps}
use opensplit.Group.Frame.Roster.{
  frame_rules, create_group-Keeps, update_group-Keeps, put_member-Keeps, forget_profile-Keeps,
  hand_over-Keeps,
}
use opensplit.Group.Frame.Invites.{
  create_invite-Keeps, create_group_link-Keeps, revoke_group_link-Keeps, join-Keeps,
}
use opensplit.Group.Frame.Ledger.{put_entry-Keeps}

ruleset object_rules = (
  frame_rules, act_as-Keeps, create_group-Keeps, update_group-Keeps, put_member-Keeps,
  put_entry-Keeps, create_invite-Keeps, create_group_link-Keeps, revoke_group_link-Keeps,
  join-Keeps,
)

module _ {O : Order} where
  write_body-Keeps :
      {A : Type 0}
      → Frame O
      → (now : ℕ) (body : Action A) → Keeps O body
      → Keeps O (write_body now body)
  unfolding write_body
  write_body-Keeps f now body k = search frame_rules depth 20

  put_group-Keeps :
      Frame O
      → (id : ℕ) (input : GroupInput) (profile now : ℕ) → Keeps O (put_group id input profile now)
  unfolding put_group
  put_group-Keeps f id input profile now = search object_rules depth 20

  put_member_as-Keeps :
      Frame O
      → (id : ℕ) (input : MemberInput) (profile now : ℕ)
      → Keeps O (put_member_as id input profile now)
  unfolding put_member_as
  put_member_as-Keeps f id input profile now = search object_rules depth 20

  put_entry_as-Keeps :
      Frame O
      → (id : ℕ) (input : EntryInput) (profile now : ℕ)
      → Keeps O (put_entry_as id input profile now)
  unfolding put_entry_as
  put_entry_as-Keeps f id input profile now = search object_rules depth 20

  create_invite_as-Keeps :
      Frame O → (id profile now : ℕ) → Keeps O (create_invite_as id profile now)
  unfolding create_invite_as
  create_invite_as-Keeps f id profile now = search object_rules depth 20

  create_link-Keeps : Frame O → (profile now : ℕ) → Keeps O (create_link profile now)
  unfolding create_link
  create_link-Keeps f profile now = search object_rules depth 20

  revoke_link-Keeps : Frame O → (profile now : ℕ) → Keeps O (revoke_link profile now)
  unfolding revoke_link
  revoke_link-Keeps f profile now = search object_rules depth 20

  join_group-Keeps :
      Frame O
      → (token profile : ℕ) (request : JoinRequest) (now : ℕ)
      → Keeps O (join_group token profile request now)
  unfolding join_group
  join_group-Keeps f token profile request now = search object_rules depth 20

  and_done-Keeps : {A : Type 0} (m : Action A) → Keeps O m → Keeps O (do m; pure tt)
  and_done-Keeps m k = Keeps-bind m _ k (λ a. Keeps-pure tt)

  run_request-Keeps : Frame O → (r : Request) (now : ℕ) → Keeps O (run_request r now)
  unfolding run_request
  run_request-Keeps f (puts_group id input p) now =
      and_done-Keeps _ (write_body-Keeps f now _ (put_group-Keeps f id input p now))
  run_request-Keeps f (puts_member id input p) now =
      and_done-Keeps _ (write_body-Keeps f now _ (put_member_as-Keeps f id input p now))
  run_request-Keeps f (puts_entry id input p) now =
      and_done-Keeps _ (write_body-Keeps f now _ (put_entry_as-Keeps f id input p now))
  run_request-Keeps f (creates_invite id p) now =
      and_done-Keeps _ (write_body-Keeps f now _ (create_invite_as-Keeps f id p now))
  run_request-Keeps f (creates_link p) now =
      and_done-Keeps _ (write_body-Keeps f now _ (create_link-Keeps f p now))
  run_request-Keeps f (revokes_link p) now =
      and_done-Keeps _ (write_body-Keeps f now _ (revoke_link-Keeps f p now))
  run_request-Keeps f (joins token p request) now =
      and_done-Keeps _ (write_body-Keeps f now _ (join_group-Keeps f token p request now))
  run_request-Keeps f (forgets p name) now = and_done-Keeps _ (forget_profile-Keeps f p name now)
  run_request-Keeps f (hands_over p heir) now = and_done-Keeps _ (hand_over-Keeps f p heir now)
  run_request-Keeps f runs_upkeep now = and_done-Keeps _ (collect_unowned-Keeps f now)

  -- Whatever the requests and however each of them ends, a history respects the relation.
  pub serve-Frame : Frame O → (s : Db) (requests : List (ℕ × Request)) → O.rel s (serve s requests)
  unfolding serve
  serve-Frame f s [] = O.reflexive s
  serve-Frame f s ((now, r) ∷ rest) =
      let t = (attempt (run_request r now) s).1 in
      O.transitive s t _ (attempt-keeps O (run_request r now) s (run_request-Keeps f r now))
        (serve-Frame f t rest)
