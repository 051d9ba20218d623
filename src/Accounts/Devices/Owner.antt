-- ===== src/Accounts/Devices/Owner.antt =====
-- server/src/api/account.ts, `registerDevice` and `forgetDevice`: whom a token wakes.
use opensplit.Prelude.{
  ℕ, ◌≡◌, refl, Bool, false, ◌&&◌, not, Option, none, some, List, [], ◌∷◌, any_row, find_row,
  rows_where, Bool-cases, inl, inr, arith, ◌==◌, if◌then◌else◌,
}
use opensplit.Prelude.Sorting.{Keyed}
use opensplit.Directory.Tables.{Directory, DeviceRow, Platform}
use opensplit.Accounts.Devices.{put_device, is_own, register_device, forget_device}

abbrev holder : Option DeviceRow → Option ℕ
holder none = none
holder (some r) = some r.profile_id

abbrev holder_in : ℕ → List DeviceRow → Option ℕ
holder_in token rows = holder (find_row (λ r. r.token == token) rows)

-- The account that a token wakes.
unfoldable pub owner : Directory → ℕ → Option ℕ
owner d token = holder_in token d.devices

abbrev pub is_owner : Option ℕ → ℕ → Bool
is_owner none self = false
is_owner (some p) self = p == self

holder-put_device :
    (t : ℕ) (new : DeviceRow) (rows : List DeviceRow)
    → holder_in t (put_device new rows)
      ≡ (if t == new.token then some new.profile_id else holder_in t rows)
unfolding put_device
holder-put_device t new [] = ground arith
holder-put_device t new (r ∷ rows) = ground (arith, holder-put_device t new rows)

no_holder :
    (t : ℕ) (rows : List DeviceRow)
    → any_row (λ r. r.token == t) rows ≡ false
    → holder_in t rows ≡ none
no_holder t [] h = refl
no_holder t (r ∷ rows) h = ground (arith, no_holder t rows)

none_own :
    (t self : ℕ) (rows : List DeviceRow)
    → any_row (λ r. r.token == t) rows ≡ false
    → any_row (is_own t self) rows ≡ false
none_own t self [] h = refl
none_own t self (r ∷ rows) h = ground (arith, none_own t self rows)

none_after :
    (t u self : ℕ) (rows : List DeviceRow)
    → any_row (λ r. r.token == t) rows ≡ false
    → any_row (λ r. r.token == t) (rows_where (λ r. not (is_own u self r)) rows) ≡ false
none_after t u self [] h = refl
none_after t u self (r ∷ rows) h = ground (arith, none_after t u self rows)

own-is_owner :
    (t self : ℕ) (rows : List DeviceRow)
    → Keyed (λ (r : DeviceRow). r.token) rows
    → any_row (is_own t self) rows ≡ is_owner (holder_in t rows) self
own-is_owner t self [] k = refl
own-is_owner t self (r ∷ rows) k = elim (Bool-cases (r.token == t)) [
  | inl hit ↦
      let same_token : r.token ≡ t = ground arith in
      ground (arith, none_own t self rows (rw same_token at k.0))
  | inr miss ↦ ground (arith, own-is_owner t self rows k.1)
]

holder-forgotten :
    (t u self : ℕ) (rows : List DeviceRow)
    → Keyed (λ (r : DeviceRow). r.token) rows
    → holder_in t (rows_where (λ r. not (is_own u self r)) rows)
      ≡ (if t == u && is_owner (holder_in t rows) self then none else holder_in t rows)
holder-forgotten t u self [] k = ground arith
holder-forgotten t u self (r ∷ rows) k = elim (Bool-cases (r.token == t)) [
  | inl hit ↦
      let same_token : r.token ≡ t = ground arith in
      let rest =
        no_holder t (rows_where (λ r. not (is_own u self r)) rows)
          (none_after t u self rows (rw same_token at k.0)) in
      ground (arith, rest)
  | inr miss ↦ ground (arith, holder-forgotten t u self rows k.1)
]

-- Registering hands a token to the account that asks, whoever had it, and no other token changes
-- hands; forgetting takes a token from the account that asks and from nobody else, and says whether
-- it did. Where each token is stored once.
pub owner_lem :
    (d : Directory) (token t self now : ℕ) (platform : Platform)
    → Keyed (λ (r : DeviceRow). r.token) d.devices
    → (owner (register_device token platform self now d) t
        ≡ (if t == token then some self else owner d t))
      × ((forget_device token self d).0 ≡ is_owner (owner d token) self)
      × (owner (forget_device token self d).1 t
          ≡ (if t == token && is_owner (owner d t) self then none else owner d t))
unfolding owner register_device forget_device
owner_lem d token t self now platform k = (
  holder-put_device t _ d.devices,
  own-is_owner token self d.devices k,
  holder-forgotten t token self d.devices k,
)
