-- ===== src/Identity.antt =====
-- server/src/identity/routes.ts: signing in with Google and with an emailed code, and attaching
-- either to the session in hand; server/src/identity/outcome.ts.
pub mod Fresh
use opensplit.Prelude.{
  ℕ, Bool, true, false, ◌&&◌, not, Option, none, some, List, [], ◌∷◌, find_row, update_where,
  is_some, ◌-◌, leb, length, drop, same, ◌==◌, if◌then◌else◌,
}
use opensplit.Prelude.Text.{Text, Text-discrete}
use opensplit.Group.Upkeep.{is_nil}
use opensplit.Directory.Tables.{Directory, UserRow}
use opensplit.Accounts.Forget.{Session, may_change_identity}

-- An account as the app sees it: a guest has no address.
pub record Account : Type 0 where
  pub id : ℕ
  pub is_anonymous : Bool
  pub email : Option Text

pub record IdentityOutcome : Type 0 where
  pub replaced : Bool
  pub account : Account
  pub token : Option ℕ
  pub stranded_user_id : Option ℕ

-- What a call of the authentication library that may sign somebody in comes to: an account with the
-- token it issued, an error that says the identity belongs to another account, or another error.
pub data AuthAnswer : Type 0 where
  signed_in : Account → Option ℕ → AuthAnswer
  already_claimed failed : AuthAnswer

-- The calls of the authentication library that can change what a session or an account is.
pub data AuthCall : Type 0 where
  link_social_account sign_in_social change_email sign_in_email : AuthCall

-- The library: what it answers to a call, and what it leaves of D1.
pub record Auth : Type 0 where
  pub call : AuthCall → Directory → AuthAnswer × Directory

pub data IdentityReply : Type 0 where
  confirm_first already_in_use no_session exception : IdentityReply
  outcome : IdentityOutcome → IdentityReply

-- A handler's reply, the calls that it has made, the latest first, and D1.
pub record Handled : Type 0 where
  pub reply : IdentityReply
  pub calls : List AuthCall
  pub d1 : Directory

-- `outcomeFor`: whether the device's ledger stayed with the session.
unfoldable pub outcome_for : Account → Option ℕ → Option ℕ → IdentityOutcome
outcome_for account none token = record {
  replaced = false;
  account = account;
  token = token;
  stranded_user_id = none;
}
outcome_for account (some previous) token = record {
  replaced = not (previous == account.id);
  account = account;
  token = token;
  stranded_user_id = if previous == account.id then none else some previous;
}

unfoldable pub stale_for_identity_change : Option Session → ℕ → Bool
stale_for_identity_change none now = false
stale_for_identity_change (some session) now = not (may_change_identity session now)

-- `settle`: an account with an identity attached is no longer a guest.
unfoldable pub settle_identity : ℕ → Directory → Directory
settle_identity user d = record d {
  users = update_where (λ u. u.id == user) (λ u. record u { is_anonymous = false }) d.users;
}

-- The address that the library invents for a guest: "@anonymous.placeholder.invalid" at its end.
abbrev pub placeholder_domain : Text
placeholder_domain =
    b'@' ∷ b'a' ∷ b'n' ∷ b'o' ∷ b'n' ∷ b'y' ∷ b'm' ∷ b'o' ∷ b'u' ∷ b's' ∷ b'.' ∷ b'p' ∷ b'l' ∷ b'a'
    ∷ b'c' ∷ b'e' ∷ b'h' ∷ b'o' ∷ b'l' ∷ b'd' ∷ b'e' ∷ b'r' ∷ b'.' ∷ b'i' ∷ b'n' ∷ b'v' ∷ b'a'
    ∷ b'l' ∷ b'i' ∷ b'd' ∷ []

-- `String.prototype.endsWith`
abbrev pub ends_with : Text → Text → Bool
ends_with t end =
    leb (length end) (length t) && same Text-discrete (drop (length t - length end) t) end

-- `toAccount`: an empty address is none.
unfoldable pub to_account : UserRow → Account
to_account u = record {
  id = u.id;
  is_anonymous = u.is_anonymous;
  email =
      if not (is_nil u.email) && not (ends_with u.email placeholder_domain)
      then some u.email
      else none;
}

abbrev found_account : Option UserRow → Option Account
found_account none = none
found_account (some u) = some (to_account u)

-- `accountById`: a missing row is an exception.
unfoldable pub account_by_id : Directory → ℕ → Option Account
unfolding to_account
account_by_id d id = found_account (find_row (λ u. u.id == id) d.users)

abbrev pub user_of : Option Session → Option ℕ
user_of none = none
user_of (some session) = some session.user_id

abbrev pub linked_reply : Option Account → ℕ → Option ℕ → IdentityReply
linked_reply none before token = exception
linked_reply (some account) before token = outcome (outcome_for account (some before) token)

-- What follows an identity that was attached to the session's account.
unfoldable pub linked : ℕ → Option ℕ → List AuthCall → Directory → Handled
unfolding settle_identity account_by_id outcome_for
linked before token calls d =
    let e = settle_identity before d in
    record { reply = linked_reply (account_by_id e before) before token; calls = calls; d1 = e }

abbrev pub signed_in_reply : Option ℕ → AuthAnswer → IdentityReply
signed_in_reply before (signed_in account token) = outcome (outcome_for account before token)
signed_in_reply before already_claimed = exception
signed_in_reply before failed = exception

-- A call that signs in, whoever the session was.
unfoldable pub sign_in : Auth → AuthCall → Option ℕ → List AuthCall → Directory → Handled
unfolding outcome_for
sign_in auth by before calls d =
    let a = auth.call by d in
    record { reply = signed_in_reply before a.0; calls = by ∷ calls; d1 = a.1 }

-- The attempt to attach Google's identity to the session's account.
abbrev pub after_link : Auth → ℕ → Bool → AuthAnswer × Directory → Handled
after_link auth before allow_sign_in (signed_in account token, d) =
    linked before token (link_social_account ∷ []) d
after_link auth before allow_sign_in (already_claimed, d) =
    if allow_sign_in
    then sign_in auth sign_in_social (some before) (link_social_account ∷ []) d
    else record { reply = already_in_use; calls = link_social_account ∷ []; d1 = d }
after_link auth before allow_sign_in (failed, d) = record {
  reply = exception;
  calls = link_social_account ∷ [];
  d1 = d;
}

abbrev pub link_or_sign_in : Auth → Option ℕ → Bool → Bool → Directory → Handled
link_or_sign_in auth (some before) true allow_sign_in d =
    after_link auth before allow_sign_in (auth.call link_social_account d)
link_or_sign_in auth before _ allow_sign_in d = sign_in auth sign_in_social before [] d

-- The route `google`.
unfoldable pub google : Auth → Option Session → Bool → ℕ → Directory → Handled
unfolding stale_for_identity_change linked sign_in
google auth session allow_sign_in now d =
    let may_link = not (stale_for_identity_change session now) in
    if not may_link && not allow_sign_in
    then record { reply = confirm_first; calls = []; d1 = d }
    else link_or_sign_in auth (user_of session) may_link allow_sign_in d

abbrev pub after_change : ℕ → AuthAnswer × Directory → Handled
after_change before (signed_in account token, d) = linked before token (change_email ∷ []) d
after_change before (already_claimed, d) = record {
  reply = exception;
  calls = change_email ∷ [];
  d1 = d;
}
after_change before (failed, d) = record { reply = exception; calls = change_email ∷ []; d1 = d }

abbrev pub attach_email : Auth → Option ℕ → Bool → Directory → Handled
attach_email auth none stale d = record { reply = no_session; calls = []; d1 = d }
attach_email auth (some before) true d = record { reply = confirm_first; calls = []; d1 = d }
attach_email auth (some before) false d = after_change before (auth.call change_email d)

-- The route `emailVerify`, past its rate limit; whether the code was for attaching the address.
unfoldable pub email_verify : Auth → Option Session → Bool → ℕ → Directory → Handled
unfolding stale_for_identity_change linked sign_in
email_verify auth session link_pending now d =
    if link_pending
    then attach_email auth (user_of session) (stale_for_identity_change session now) d
    else sign_in auth sign_in_email (user_of session) [] d
