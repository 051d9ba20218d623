-- ===== src/Directory/Apply/Delivery.antt =====
-- server/src/do/group/index.ts: staged writes that arrive more than once, late, or in another order.
use opensplit.Prelude.{
  ℕ, ◌≡◌, refl, sym, ap, ◌∙◌, true, false, Option, none, some, List, [], ◌∷◌, any_row, ◌==◌, arith,
  Bool-cases, inl, inr,
}
use opensplit.Group.Tables.{OutboxRow, OutboxPayload, membership, link_token, group_purged}
use opensplit.Directory.Tables.{MembershipRow, Directory}
use opensplit.Directory.Apply.{apply_row}
use opensplit.Directory.Apply.View.{
  View, view, view-eq, step, step_payload, newer, written, view-apply_row,
}

newer_idem : (a : MembershipRow) (o : Option MembershipRow) → newer a (newer a o) ≡ newer a o
newer_idem a o = ground arith

newer_comm :
    (a b : MembershipRow) (o : Option MembershipRow)
    → a.version == b.version ≡ false
    → newer a (newer b o) ≡ newer b (newer a o)
newer_comm a b none h = ground arith
newer_comm a b (some m) h = ground arith

step_payload_idem :
    (a : OutboxPayload) (i : ℕ) (v : View)
    → step_payload a i (step_payload a i v) ≡ step_payload a i v
step_payload_idem (membership w) i v =
    view-eq _ _ (λ p. refl) (λ g. refl)
      (λ p g. ground (arith, newer_idem (written i w) (v.place p g)))
step_payload_idem (link_token w) i v = refl
step_payload_idem (group_purged w) i v =
    view-eq _ _ (λ p. refl) (λ g. ground arith) (λ p g. ground arith)

step_payload_comm :
    (a b : OutboxPayload) (i j : ℕ) (v : View)
    → i == j ≡ false
    → step_payload a i (step_payload b j v) ≡ step_payload b j (step_payload a i v)
step_payload_comm (membership w) (membership x) i j v h =
    view-eq _ _ (λ p. refl) (λ g. refl)
      (λ p g. ground (arith, newer_comm (written i w) (written j x) (v.place p g) h))
step_payload_comm (membership w) (link_token x) i j v h = refl
step_payload_comm (membership w) (group_purged x) i j v h =
    view-eq _ _ (λ p. refl) (λ g. refl) (λ p g. ground arith)
step_payload_comm (link_token w) b i j v h = refl
step_payload_comm (group_purged w) (membership x) i j v h =
    view-eq _ _ (λ p. refl) (λ g. refl) (λ p g. ground arith)
step_payload_comm (group_purged w) (link_token x) i j v h = refl
step_payload_comm (group_purged w) (group_purged x) i j v h =
    view-eq _ _ (λ p. refl) (λ g. ground arith) (λ p g. ground arith)

-- An outbox, as the row that each id was given to.
pub record IsLog (log : ℕ → OutboxRow) : Type 0 where
  pub ids : (n : ℕ) → (log n).id ≡ n

-- Rows sent one after another, by their ids.
unfoldable pub send_rows : (ℕ → OutboxRow) → List ℕ → Directory → Directory
send_rows log [] d = d
send_rows log (n ∷ ns) d = send_rows log ns (apply_row (log n) d)

deliver : (ℕ → OutboxRow) → List ℕ → View → View
deliver log [] v = v
deliver log (n ∷ ns) v = deliver log ns (step (log n) v)

module _ (log : ℕ → OutboxRow) (l : IsLog log) where
  step_idem : (n : ℕ) (v : View) → step (log n) (step (log n) v) ≡ step (log n) v
  unfolding step
  step_idem n v = step_payload_idem (log n).payload (log n).id v

  step_comm : (m n : ℕ) (v : View) → step (log m) (step (log n) v) ≡ step (log n) (step (log m) v)
  unfolding step
  step_comm m n v = elim (Bool-cases (m == n)) [
    | inl same ↦ let e : m ≡ n = ground arith in rw e refl
    | inr other ↦
        step_payload_comm (log m).payload (log n).payload (log m).id (log n).id v
          (rw (l.ids m, l.ids n) other)
  ]

  view-send_rows :
      (ns : List ℕ) (d : Directory) → view (send_rows log ns d) ≡ deliver log ns (view d)
  unfolding send_rows deliver
  view-send_rows [] d = refl
  view-send_rows (n ∷ ns) d =
      view-send_rows ns (apply_row (log n) d) ∙ ap (deliver log ns) (view-apply_row (log n) d)

  deliver-step :
      (m : ℕ) (ns : List ℕ) (v : View)
      → deliver log ns (step (log m) v) ≡ step (log m) (deliver log ns v)
  unfolding deliver
  deliver-step m [] v = refl
  deliver-step m (n ∷ ns) v =
      ap (deliver log ns) (step_comm n m v) ∙ deliver-step m ns (step (log n) v)

  step_absorbed :
      (m : ℕ) (ns : List ℕ) (v : View)
      → any_row (λ n. n == m) ns ≡ true
      → step (log m) (deliver log ns v) ≡ deliver log ns v
  unfolding deliver
  step_absorbed m [] v h = cc
  step_absorbed m (n ∷ ns) v h = elim (Bool-cases (n == m)) [
    | inl same ↦
        let e : n ≡ m = ground arith in
        rw e (sym (deliver-step m ns (step (log m) v)) ∙ ap (deliver log ns) (step_idem m v))
    | inr other ↦ step_absorbed m ns (step (log n) v) (ground arith)
  ]

  deliver_absorbed :
      (ms ns : List ℕ) (v : View)
      → ((k : ℕ) → any_row (λ n. n == k) ms ≡ true → any_row (λ n. n == k) ns ≡ true)
      → deliver log ms (deliver log ns v) ≡ deliver log ns v
  unfolding deliver
  deliver_absorbed [] ns v h = refl
  deliver_absorbed (m ∷ ms) ns v h =
      ap (deliver log ms) (step_absorbed m ns v (h m (ground arith)))
      ∙ deliver_absorbed ms ns v (λ k there. h k (ground arith))

  deliver_comm :
      (ms ns : List ℕ) (v : View)
      → deliver log ms (deliver log ns v) ≡ deliver log ns (deliver log ms v)
  unfolding deliver
  deliver_comm [] ns v = refl
  deliver_comm (m ∷ ms) ns v =
      ap (deliver log ms) (sym (deliver-step m ns v)) ∙ deliver_comm ms ns (step (log m) v)

  -- A staged write is safe to repeat and safe to arrive late. Two deliveries of rows of one outbox
  -- to one directory, each of the same rows in any order and any of them any number of times, leave
  -- indexes that give the same answers: which groups are purged, and for each account and group the
  -- same membership or none. Accounts are neither made nor deleted meanwhile.
  pub view-send_rows_any_order :
      (ms ns : List ℕ) (d : Directory)
      → ((k : ℕ) → any_row (λ n. n == k) ms ≡ any_row (λ n. n == k) ns)
      → view (send_rows log ms d) ≡ view (send_rows log ns d)
  view-send_rows_any_order ms ns d h =
      view-send_rows ms d
      ∙ (sym (deliver_absorbed ns ms (view d) (λ k there. h k ∙ there))
          ∙ (deliver_comm ns ms (view d)
              ∙ (deliver_absorbed ms ns (view d) (λ k there. sym (h k) ∙ there)
                  ∙ sym (view-send_rows ns d))))
