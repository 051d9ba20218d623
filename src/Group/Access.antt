-- ===== src/Group/Access.antt =====
-- Membership is the whole of authorization: what a caller who is no active member can do.
use mathlib.Core.Option.{some-injective}
use opensplit.Prelude.{
  ltb, ℕ, ◌≡◌, refl, Bool, true, false, ◌&&◌, Option, none, some, case_of, find_row, is_some,
  is_none, arith, Option-cases, inl, inr, ◌⊎◌,
}
use opensplit.Group.Schema.{MemberRow, MetaRow, MemberInput, GroupInput, EntryInput}
use opensplit.Group.Refusal.{not_member, ok, err}
use opensplit.Group.Tables.{Db}
use opensplit.Group.Action.{
  Action, Outcome, done, thrown, Thrown, refused, pure, ◌>>=◌, ◌>>◌, continue, answered, attempt,
}
use opensplit.Group.Action.Keeps.{After, settled-keeps}
use opensplit.Group.Store.{
  current_seq, WriteContext, holds, require_meta, require_active_member, find_member_by_profile,
  act_as,
}
use opensplit.Group.Roster.Members.{put_member}
use opensplit.Group.Roster.Settings.{update_group}
use opensplit.Group.Object.{
  write_body, put_group, acknowledged, put_member_as, put_entry_as, create_invite_as, create_link,
  revoke_link, Request, puts_group, puts_member, puts_entry, creates_invite, creates_link,
  revokes_link, joins, forgets, hands_over, runs_upkeep, run_request,
}

-- Who a request is made for, where it is one that only members may make.
abbrev pub author : Request → Option ℕ
author (puts_group id input p) = some p
author (puts_member id input p) = some p
author (puts_entry id input p) = some p
author (creates_invite id p) = some p
author (creates_link p) = some p
author (revokes_link p) = some p
author _ = none

-- Whether an account holds a place in the group and has not left it.
abbrev pub is_active : ℕ → Db → Bool
is_active p s = is_some (find_row (λ m. holds m.profile_id p && is_none m.left_at) s.members)

bind-thrown :
    {A B : Type 0} (m : Action A) (f : A → Action B) (s : Db) (e : Thrown)
    → m s ≡ thrown e
    → (m >>= f) s ≡ thrown e
unfolding ◌>>=◌
bind-thrown m f s e h = rw h

act_as-outsider :
    (p now : ℕ) (s : Db) (meta : MetaRow)
    → s.meta ≡ some meta
    → is_active p s ≡ false
    → act_as p now s ≡ thrown (refused not_member)
unfolding act_as require_meta require_active_member ◌>>=◌
act_as-outsider p now s meta m h = ground arith

write_body-thrown :
    {A : Type 0} (now : ℕ) (body : Action A) (s : Db) (e : Thrown)
    → body s ≡ thrown e
    → write_body now body s ≡ thrown e
unfolding write_body ◌>>=◌
write_body-thrown now body s e h = rw (h, continue)

not_ltb_self : (n : ℕ) → ltb n n ≡ false
not_ltb_self n = ground arith

write_body-idle :
    {A : Type 0} (now : ℕ) (body : Action A) (s : Db) (a : A)
    → body s ≡ done a s
    → After (λ t. t ≡ s) (write_body now body s)
unfolding write_body ◌>>=◌
write_body-idle now body s a h = rw (h, continue, not_ltb_self (current_seq s)) refl

-- The member's own answer apart, `putMember` refuses somebody who is not active.
put_member_as-outsider :
    (id : ℕ) (input : MemberInput) (p now : ℕ) (s : Db) (meta : MetaRow)
    → s.meta ≡ some meta
    → is_active p s ≡ false
    → (put_member_as id input p now s ≡ thrown (refused not_member))
      ⊎ ((m : MemberRow) × (put_member_as id input p now s ≡ done m s))
unfolding put_member_as ◌>>=◌
put_member_as-outsider id input p now s meta m h =
    elim (Option-cases (acknowledged id input (find_member_by_profile s p))) [
      | inl e ↦ inl (
          rw (e, case_of)
            (bind-thrown (act_as p now) (λ c. put_member id input c) s _
              (act_as-outsider p now s meta m h)))
      | inr (self, e) ↦ inr (self, rw (e, case_of) refl)
    ]

put_group-outsider :
    (id : ℕ) (input : GroupInput) (p now : ℕ) (s : Db) (meta : MetaRow)
    → s.meta ≡ some meta
    → is_active p s ≡ false
    → put_group id input p now s ≡ thrown (refused not_member)
unfolding put_group ◌>>=◌
put_group-outsider id input p now s meta m h =
    let here : (is_none s.meta && is_none s.tombstone) ≡ false = ground arith in
    rw here (
      bind-thrown (act_as p now) (λ c. do update_group input c; require_meta) s _
        (act_as-outsider p now s meta m h))

-- A request that throws, or that returns on the database it found, leaves the database alone.
idle_request :
    (r : Request) (now : ℕ) (s : Db)
    → After (λ t. t ≡ s) (run_request r now s)
    → (attempt (run_request r now) s).1 ≡ s
unfolding attempt
idle_request r now s h = settled-keeps (λ t. t ≡ s) s (run_request r now s) h refl

After-thrown :
    {A : Type 0} (s : Db) (o : Outcome A) (e : Thrown) → o ≡ thrown e → After (λ t. t ≡ s) o
After-thrown s o e h = rw h tt

module _ (p now : ℕ) (s : Db) (meta : MetaRow) (m : s.meta ≡ some meta)
    (h : is_active p s ≡ false) where
  refused_body :
      {A : Type 0} (body : Action A)
      → body s ≡ thrown (refused not_member)
      → (do write_body now body; pure tt) s ≡ thrown (refused not_member)
  refused_body body e = bind-thrown _ (λ _. pure tt) s _ (write_body-thrown now body s _ e)

  acted :
      {A : Type 0} (f : WriteContext → Action A)
      → (act_as p now >>= f) s ≡ thrown (refused not_member)
  acted f = bind-thrown (act_as p now) f s _ (act_as-outsider p now s meta m h)

  -- What each such request comes to.
  abbrev Refuses : Request → Type 0
  Refuses r = run_request r now s ≡ thrown (refused not_member)

  puts_group-Refuses : (id : ℕ) (input : GroupInput) → Refuses (puts_group id input p)
  unfolding run_request
  puts_group-Refuses id input = refused_body _ (put_group-outsider id input p now s meta m h)

  puts_entry-Refuses : (id : ℕ) (input : EntryInput) → Refuses (puts_entry id input p)
  unfolding run_request put_entry_as
  puts_entry-Refuses id input = refused_body _ (acted _)

  creates_invite-Refuses : (id : ℕ) → Refuses (creates_invite id p)
  unfolding run_request create_invite_as
  creates_invite-Refuses id = refused_body _ (acted _)

  creates_link-Refuses : Refuses (creates_link p)
  unfolding run_request create_link
  creates_link-Refuses = refused_body _ (acted _)

  revokes_link-Refuses : Refuses (revokes_link p)
  unfolding run_request revoke_link
  revokes_link-Refuses = refused_body _ (acted _)

  puts_member-cases :
      (id : ℕ) (input : MemberInput)
      → Refuses (puts_member id input p)
        ⊎ ((is_some (acknowledged id input (find_member_by_profile s p)) ≡ true)
            × (run_request (puts_member id input p) now s ≡ done tt s))
  unfolding run_request put_member_as write_body ◌>>=◌
  puts_member-cases id input =
      elim (Option-cases (acknowledged id input (find_member_by_profile s p))) [
        | inl e ↦ inl (rw (e, case_of, acted (put_member id input), continue))
        | inr (self, e) ↦ inr (rw e, rw (e, case_of, continue, not_ltb_self (current_seq s)) refl)
      ]

same_account : (q p : ℕ) → some q ≡ some p → q ≡ p
same_account q p e = some-injective q p e

-- Whether a request is a leave that has happened, asked for again.
abbrev pub repeats_leave : Request → Db → Bool
repeats_leave (puts_member id input p) s =
    is_some (acknowledged id input (find_member_by_profile s p))
repeats_leave _ s = false

-- A request to edit the group, a member or an expense, or to hand out or turn off a link, made for
-- an account that is not active in an existing group, leaves the database as it was. It is refused
-- with `not_member`, except that a leave which has happened is acknowledged when it is asked for
-- again.
pub outsider_refused :
    (r : Request) (p now : ℕ) (s : Db) (meta : MetaRow)
    → author r ≡ some p
    → s.meta ≡ some meta
    → is_active p s ≡ false
    → (attempt (run_request r now) s ≡ (answered (err not_member), s))
      ⊎ ((repeats_leave r s ≡ true) × (attempt (run_request r now) s ≡ (answered (ok tt), s)))
unfolding attempt
outsider_refused (puts_group id input q) p now s meta a m h =
    inl (rw (puts_group-Refuses q now s meta m (rw (same_account q p a) h) id input))
outsider_refused (puts_entry id input q) p now s meta a m h =
    inl (rw (puts_entry-Refuses q now s meta m (rw (same_account q p a) h) id input))
outsider_refused (creates_invite id q) p now s meta a m h =
    inl (rw (creates_invite-Refuses q now s meta m (rw (same_account q p a) h) id))
outsider_refused (creates_link q) p now s meta a m h =
    inl (rw (creates_link-Refuses q now s meta m (rw (same_account q p a) h)))
outsider_refused (revokes_link q) p now s meta a m h =
    inl (rw (revokes_link-Refuses q now s meta m (rw (same_account q p a) h)))
outsider_refused (puts_member id input q) p now s meta a m h =
    elim (puts_member-cases q now s meta m (rw (same_account q p a) h) id input) [
      | inl e ↦ inl (rw e)
      | inr (ack, e) ↦ inr (ack, rw e)
    ]
outsider_refused (joins token q request) p now s meta a m h = cc
outsider_refused (forgets q name) p now s meta a m h = cc
outsider_refused (hands_over q heir) p now s meta a m h = cc
outsider_refused runs_upkeep p now s meta a m h = cc
