-- ===== src/Accounts/Devices.antt =====
-- The devices that are woken for an account: the device routes of server/src/api/account.ts.
pub mod Owner
use opensplit.Prelude.{
  ℕ, Bool, true, false, ◌&&◌, not, Option, none, some, List, [], ◌∷◌, ◌++◌, any_row, rows_where,
  ◌==◌, if◌then◌else◌,
}
use opensplit.Directory.Tables.{Directory, DeviceRow, Platform}

-- `insert … on conflict (token) do update`
unfoldable pub put_device : DeviceRow → List DeviceRow → List DeviceRow
put_device new [] = new ∷ []
put_device new (r ∷ rows) =
    let rest = r ∷ put_device new rows in if r.token == new.token then new ∷ rows else rest

-- `registerDevice`: a token that was somebody else's is claimed.
unfoldable pub register_device : ℕ → Platform → ℕ → ℕ → Directory → Directory
unfolding put_device
register_device token platform self now d = record d {
  devices =
      put_device
        (record { token = token; profile_id = self; platform = platform; updated_at = now })
        d.devices;
}

abbrev pub is_own : ℕ → ℕ → DeviceRow → Bool
is_own token self r = r.token == token && r.profile_id == self

-- `forgetDevice`: whether there was one to forget.
unfoldable pub forget_device : ℕ → ℕ → Directory → Bool × Directory
forget_device token self d = (
  any_row (is_own token self) d.devices,
  record d { devices = rows_where (λ r. not (is_own token self r)) d.devices },
)
