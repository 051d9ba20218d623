-- ===== src/Accounts/Forget/Erased.antt =====
-- server/src/forget.ts and `deleteAccount` of server/src/api/account.ts: the devices and the sessions
-- of a deleted account, and its emptied profile.
use opensplit.Prelude.{
  ℕ, zero, suc, ◌≡◌, refl, false, not, Option, none, some, List, [], ◌∷◌, All, any_row, rows_where,
  update_where, Bool-cases, inl, inr, arith, ◌==◌,
}
use opensplit.Prelude.Text.{Text}
use opensplit.Group.Tables.{OutboxPayload, membership, link_token, group_purged}
use opensplit.Group.Action.{Outcome, done, thrown}
use opensplit.Group.Action.Keeps.{After}
use opensplit.Directory.Tables.{Directory, ProfileRow, DeviceRow, SessionRow}
use opensplit.Directory.Apply.{
  apply_row, apply_payload, apply_membership, apply_link_token, apply_purge,
}
use opensplit.Flush.Kept.{Kept, settle-Kept}
use opensplit.Accounts.Profiles.{write_profile, default_avatar}
use opensplit.Accounts.Forget.{
  System, at_group, call_group, settled_call, try_call, cut, drop_place, next_step, forget_places,
  counted, AccountDeletion, empty_profile, blanked, emptied, forget_account, delete_user,
}

-- No device and no session belongs to the account.
pub record Erased (p : ℕ) (d : Directory) : Type 0 where
  pub devices : any_row (λ r. r.profile_id == p) d.devices ≡ false
  pub sessions : any_row (λ s. s.user_id == p) d.sessions ≡ false

-- A profile of the account has no name, address or picture left, and is marked as deleted.
abbrev pub IsBlank : ℕ → ℕ → ProfileRow → Type 0
IsBlank p now q =
    q.id ≡ p
    → (q.display_name ≡ none)
      × (q.upi_vpa ≡ none)
      × (q.avatar ≡ default_avatar)
      × (q.deleted_at ≡ some now)

module _ (p : ℕ) where
  apply_payload-Erased :
      (payload : OutboxPayload) (id at : ℕ) (d : Directory)
      → Erased p d
      → Erased p (apply_payload payload id at d)
  unfolding apply_membership apply_link_token apply_purge
  apply_payload-Erased (membership w) id at d e = record {
    devices = ground (arith, e.devices);
    sessions = ground (arith, e.sessions);
  }
  apply_payload-Erased (link_token w) id at d e = record {
    devices = ground (arith, e.devices);
    sessions = ground (arith, e.sessions);
  }
  apply_payload-Erased (group_purged w) id at d e = record {
    devices = e.devices;
    sessions = e.sessions;
  }

  anything : {A : Type 0} (o : Outcome A) → After (λ t. Unit → Unit) o
  anything (done a t) = λ h. tt
  anything (thrown e) = tt

  keeping : Kept (λ s. Unit) (Erased p)
  unfolding apply_row
  keeping = record {
    record_sent = λ row outcome now. record { at = λ s. anything _ };
    backoff = λ ids now. record { at = λ s. anything _ };
    apply_row = λ row d e. apply_payload-Erased row.payload row.id row.created_at d e;
  }

  abbrev Clear : {A : Type 0} → A × System → Type 0
  Clear r = Erased p r.1.d1

  call-Clear :
      {A : Type 0} (g now : ℕ) (w : System) (o : Outcome A)
      → Erased p w.d1
      → Clear (settled_call g now w o)
  call-Clear g now w (thrown e) k = k
  call-Clear g now w (done a t) k = (settle-Kept keeping false now (at_group g t w) tt k).1

  cut-Clear : {A : Type 0} (lives : ℕ) (r : Option A × System) → Clear r → Clear (cut lives r)
  cut-Clear zero (o, w) k = k
  cut-Clear (suc lives) (none, w) k = k
  cut-Clear (suc lives) (some a, w) k = k

  try_call-Clear :
      (heir : Option ℕ) (profile : ℕ) (name : Option Text) (now g lives : ℕ) (w : System)
      → Erased p w.d1
      → Clear (try_call heir profile name now g lives w)
  unfolding try_call call_group
  try_call-Clear heir profile name now g zero w k = k
  try_call-Clear heir profile name now g (suc lives) w k =
      cut-Clear lives _ (call-Clear g now w _ k)

  next_step-Clear :
      {A B : Type 0} (k : ℕ → A → System → Option B × System) (r : Option (ℕ × A) × System)
      → Clear r
      → ((lives : ℕ) (a : A) (v : System) → Erased p v.d1 → Clear (k lives a v))
      → Clear (next_step k r)
  next_step-Clear k (none, v) c h = c
  next_step-Clear k (some (lives, a), v) c h = h lives a v c

  forget_places-Clear :
      (heir : Option ℕ) (profile : ℕ) (name : Option Text) (now : ℕ) (gs : List ℕ) (lives : ℕ)
      (c : AccountDeletion) (w : System)
      → Erased p w.d1
      → Clear (forget_places heir profile name now gs lives c w)
  unfolding forget_places drop_place
  forget_places-Clear heir profile name now [] lives c w k = k
  forget_places-Clear heir profile name now (g ∷ gs) lives c w k =
      next_step-Clear _ _ (try_call-Clear heir profile name now g lives w k) (λ left f v e.
        forget_places-Clear heir profile name now gs left (counted f c)
          (record v { d1 = drop_place profile g v.d1 })
          (record { devices = e.devices; sessions = e.sessions }))

  emptied-Clear :
      (profile now : ℕ) (r : Option (ℕ × AccountDeletion) × System)
      → Clear r
      → Clear (emptied profile now r)
  unfolding empty_profile write_profile
  emptied-Clear profile now (none, v) k = k
  emptied-Clear profile now (some (zero, c), v) k = k
  emptied-Clear profile now (some (suc lives, c), v) k = record {
    devices = k.devices;
    sessions = k.sessions;
  }

  pub forget_account-Erased :
      (heir : Option ℕ) (profile now lives : ℕ) (w : System)
      → Erased p w.d1
      → Erased p (forget_account heir profile now lives w).1.d1
  unfolding forget_account
  forget_account-Erased heir profile now lives w k =
      emptied-Clear profile now _ (forget_places-Clear heir profile _ now _ lives _ w k)

  no_device :
      (rs : List DeviceRow)
      → any_row (λ r. r.profile_id == p) (rows_where (λ r. not (r.profile_id == p)) rs) ≡ false
  no_device [] = refl
  no_device (r ∷ rs) = ground (arith, no_device rs)

  no_session :
      (rs : List SessionRow)
      → any_row (λ r. r.user_id == p) (rows_where (λ r. not (r.user_id == p)) rs) ≡ false
  no_session [] = refl
  no_session (r ∷ rs) = ground (arith, no_session rs)

  pub delete_user-Erased : (d : Directory) → Erased p (delete_user p d)
  unfolding delete_user
  delete_user-Erased d = record { devices = no_device d.devices; sessions = no_session d.sessions }

  -- What the profiles are when forgetting comes to its end.
  abbrev pub Blanked : ℕ → {A : Type 0} → Option A × System → Type 0
  Blanked now (none, v) = Unit
  Blanked now (some a, v) = All (IsBlank p now) v.d1.profiles

  IsBlank-each :
      (now version : ℕ) (ps : List ProfileRow)
      → All (IsBlank p now) (
          update_where
            (λ q. q.id == p)
            (λ q. record (blanked now q) { id = q.id; updated_at = now; version = version })
            ps)
  IsBlank-each now version [] = tt
  IsBlank-each now version (q ∷ ps) = elim (Bool-cases (q.id == p)) [
    | inl hit ↦ rw hit ((λ e. (refl, refl, refl, refl)), IsBlank-each now version ps)
    | inr miss ↦ rw miss ((λ e. not_it e miss), IsBlank-each now version ps)
  ]
    where
      not_it :
          q.id ≡ p
          → (q.id == p) ≡ false
          → (q.display_name ≡ none)
            × (q.upi_vpa ≡ none)
            × (q.avatar ≡ default_avatar)
            × (q.deleted_at ≡ some now)
      not_it e miss = absurd (let n : ⊥ = grind arith in n)

  emptied-Blanked :
      (now : ℕ) (r : Option (ℕ × AccountDeletion) × System) → Blanked now (emptied p now r)
  unfolding empty_profile write_profile
  emptied-Blanked now (none, v) = tt
  emptied-Blanked now (some (zero, c), v) = tt
  emptied-Blanked now (some (suc lives, c), v) = IsBlank-each now _ v.d1.profiles

  pub forget_account-Blanked :
      (heir : Option ℕ) (now lives : ℕ) (w : System)
      → Blanked now (forget_account heir p now lives w)
  unfolding forget_account
  forget_account-Blanked heir now lives w = emptied-Blanked now _
