-- ===== src/Accounts/Forget/Watch.antt =====
-- What a staged write can do, as it reaches D1, to the places of an account that is gone: a purge
-- may take them, and nothing adds one.
use mathlib.Core.Path.{subst}
use opensplit.Prelude.{
  ℕ, ◌≡◌, refl, sym, ap, ◌∙◌, Bool, true, false, ◌||◌, is_some, Bool-cases, inl, inr, arith, ◌==◌,
}
use opensplit.Group.Tables.{
  OutboxRow, OutboxPayload, membership, link_token, group_purged, MembershipWrite,
}
use opensplit.Directory.Tables.{Directory}
use opensplit.Directory.Apply.{apply_row}
use opensplit.Directory.Apply.View.{View, view, step, step_payload, view-apply_row}

-- An account without a user; of the groups that `covered` names it has a place in each or the
-- group is purged, and it has places in groups that `within` names alone.
pub record Watched (p : ℕ) (covered within : ℕ → Bool) (v : View) : Type 0 where
  pub gone : v.known p ≡ false
  pub here : (h : ℕ) → covered h ≡ true → is_some (v.place p h) || v.purged h ≡ true
  pub only : (h : ℕ) → is_some (v.place p h) ≡ true → within h ≡ true

module _ (p : ℕ) (covered within : ℕ → Bool) where
  no_new_place :
      (w : MembershipWrite) (id : ℕ) (v : View) (h : ℕ)
      → v.known p ≡ false
      → (step_payload (membership w) id v).place p h ≡ v.place p h
  no_new_place w id v h gone = elim (Bool-cases (w.profile_id == p)) [
    | inl hit ↦
        let same_account : w.profile_id ≡ p = ground arith in
        let unknown : v.known w.profile_id ≡ false = ap v.known same_account ∙ gone in
        rw unknown refl
    | inr miss ↦ ground arith
  ]

  step_payload-Watched :
      (payload : OutboxPayload) (id : ℕ) (v : View)
      → Watched p covered within v
      → Watched p covered within (step_payload payload id v)
  step_payload-Watched (membership w) id v k = record {
    gone = k.gone;
    here = λ h c. rw (no_new_place w id v h k.gone) (k.here h c);
    only = λ h s. k.only h (rw (no_new_place w id v h k.gone) at s);
  }
  step_payload-Watched (link_token w) id v k = k
  step_payload-Watched (group_purged w) id v k = record {
    gone = k.gone;
    here = λ h c. let b = k.here h c in ground (arith, b);
    only = λ h s. elim (Bool-cases (h == w.group_id)) [
      | inl hit ↦ absurd_place h (rw hit at s)
      | inr miss ↦ k.only h (rw miss at s)
    ];
  }
    where
      absurd_place : (h : ℕ) → false ≡ true → within h ≡ true
      absurd_place h e = cc

  pub apply_row-Watched :
      (row : OutboxRow) (d : Directory)
      → Watched p covered within (view d)
      → Watched p covered within (view (apply_row row d))
  unfolding step
  apply_row-Watched row d k =
      subst (Watched p covered within) (sym (view-apply_row row d))
        (step_payload-Watched row.payload row.id (view d) k)
