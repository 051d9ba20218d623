-- ===== src/Pull/Answered.antt =====
-- server/src/api/ledger.ts, `pull`: what it answers for each group asked for.
use opensplit.Prelude.{
  ℕ, ◌≡◌, true, false, ◌&&◌, Option, none, some, List, any_row, is_none, ◌==◌, ◌⊎◌,
}
use opensplit.Directory.Tables.{Directory}
use opensplit.Accounts.Forget.{System}
use opensplit.Pull.{Faults, GroupCursor, Pull}
use opensplit.Pull.Profiles.{ReadFor}
use opensplit.Pull.Gathered.{is_shown_on, Answers, any_object, Gathered}

-- Whether a read of profiles fails.
pub record ProfileFault (faults : Faults) : Type 0 where
  pub ids : List ℕ
  pub fails : faults.profiles ids ≡ true

-- What a pull comes to: nothing only where a call fails, and an answer only where the read of the
-- groups, no call of an object, and for each account shown some read of profiles does not fail.
abbrev pub IsPulled : Faults → ℕ → List GroupCursor → ℕ → System → Option Pull → Type 0
IsPulled faults viewer asked limit w none =
    (faults.groups ≡ true) ⊎ ((any_object faults 0 asked ≡ true) ⊎ ProfileFault faults)
IsPulled faults viewer asked limit w (some r) =
    (faults.groups ≡ false)
    × (any_object faults 0 asked ≡ false)
    × ((x : ℕ) → is_shown_on x r.pages ≡ true → ReadFor faults x)
    × Answers viewer limit w asked r.pages r.refusals
    × ((g : ℕ)
        → any_row (λ h. h == g) r.group_ids
          ≡ any_row (λ m. m.profile_id == viewer && is_none m.left_at && m.group_id == g)
              w.d1.memberships)

module _ (faults : Faults) (viewer : ℕ) (asked : List GroupCursor) (limit : ℕ) (w : System) where
  abbrev AsPulled : Option Pull → Type 0
  AsPulled o = IsPulled faults viewer asked limit w o
