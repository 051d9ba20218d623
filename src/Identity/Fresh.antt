-- ===== src/Identity/Fresh.antt =====
-- server/src/identity/routes.ts: an identity is attached only to a session that was signed in lately,
-- and a device is told whenever its ledger was left behind.
use opensplit.Prelude.{
  ℕ, ◌≡◌, refl, sym, ◌∙◌, Bool, true, false, ◌||◌, not, Option, none, some, List, [], ◌∷◌,
  Bool-cases, inl, inr, ◌==◌, if◌then◌else◌,
}
use opensplit.Directory.Tables.{Directory}
use opensplit.Accounts.Forget.{Session, may_change_identity}
use opensplit.Identity.{
  Account, AuthAnswer, signed_in, already_claimed, failed, AuthCall, link_social_account,
  sign_in_social, change_email, sign_in_email, Auth, IdentityReply, confirm_first, already_in_use,
  no_session, exception, outcome, Handled, outcome_for, stale_for_identity_change, linked,
  linked_reply, sign_in, signed_in_reply, user_of, after_link, google, after_change, email_verify,
}

abbrev attaches : AuthCall → Bool
attaches link_social_account = true
attaches change_email = true
attaches _ = false

abbrev has_attached : List AuthCall → Bool
has_attached [] = false
has_attached (call ∷ calls) = attaches call || has_attached calls

-- A session that may change the identity behind it.
abbrev pub is_fresh : Option Session → ℕ → Bool
is_fresh none now = false
is_fresh (some session) now = may_change_identity session now

-- A reply that tells of an account: the device's ledger was left behind exactly when the account is
-- not the session's, and the reply says whose it was.
abbrev pub Tells : Option ℕ → IdentityReply → Type 0
Tells none (outcome o) = (o.replaced ≡ false) × (o.stranded_user_id ≡ none)
Tells (some before) (outcome o) =
    (o.replaced ≡ not (before == o.account.id))
    × (o.stranded_user_id ≡ (if before == o.account.id then none else some before))
Tells before confirm_first = Unit
Tells before already_in_use = Unit
Tells before no_session = Unit
Tells before exception = Unit

pub record IsCareful (session : Option Session) (now : ℕ) (h : Handled) : Type 0 where
  pub fresh : has_attached h.calls ≡ true → is_fresh session now ≡ true
  pub tells : Tells (user_of session) h.reply

outcome_for-Tells :
    (account : Account) (before token : Option ℕ)
    → Tells before (outcome (outcome_for account before token))
unfolding outcome_for
outcome_for-Tells account none token = (refl, refl)
outcome_for-Tells account (some before) token = (refl, refl)

linked_reply-Tells :
    (o : Option Account) (before : ℕ) (token : Option ℕ)
    → Tells (some before) (linked_reply o before token)
linked_reply-Tells none before token = tt
linked_reply-Tells (some account) before token = outcome_for-Tells account (some before) token

signed_in_reply-Tells :
    (before : Option ℕ) (a : AuthAnswer) → Tells before (signed_in_reply before a)
signed_in_reply-Tells before (signed_in account token) = outcome_for-Tells account before token
signed_in_reply-Tells none already_claimed = tt
signed_in_reply-Tells (some b) already_claimed = tt
signed_in_reply-Tells none failed = tt
signed_in_reply-Tells (some b) failed = tt

module _ (auth : Auth) (now : ℕ) (s : Session) (fresh : may_change_identity s now ≡ true) where
  after_link-IsCareful :
      (allow : Bool) (a : AuthAnswer × Directory)
      → IsCareful (some s) now (after_link auth s.user_id allow a)
  unfolding linked sign_in
  after_link-IsCareful allow (signed_in account token, d) = record {
    fresh = λ _. fresh;
    tells = linked_reply-Tells _ s.user_id token;
  }
  after_link-IsCareful true (already_claimed, d) = record {
    fresh = λ _. fresh;
    tells = signed_in_reply-Tells (some s.user_id) _;
  }
  after_link-IsCareful false (already_claimed, d) = record { fresh = λ _. fresh; tells = tt }
  after_link-IsCareful allow (failed, d) = record { fresh = λ _. fresh; tells = tt }

  after_change-IsCareful :
      (a : AuthAnswer × Directory) → IsCareful (some s) now (after_change s.user_id a)
  unfolding linked
  after_change-IsCareful (signed_in account token, d) = record {
    fresh = λ _. fresh;
    tells = linked_reply-Tells _ s.user_id token;
  }
  after_change-IsCareful (already_claimed, d) = record { fresh = λ _. fresh; tells = tt }
  after_change-IsCareful (failed, d) = record { fresh = λ _. fresh; tells = tt }

sign_in_social-IsCareful :
    (auth : Auth) (session : Option Session) (now : ℕ) (d : Directory)
    → IsCareful session now (sign_in auth sign_in_social (user_of session) [] d)
unfolding sign_in
sign_in_social-IsCareful auth session now d = record {
  fresh = λ h. no_attach h;
  tells = signed_in_reply-Tells (user_of session) _;
}
  where
    no_attach : false ≡ true → is_fresh session now ≡ true
    no_attach e = cc

sign_in_email-IsCareful :
    (auth : Auth) (session : Option Session) (now : ℕ) (d : Directory)
    → IsCareful session now (sign_in auth sign_in_email (user_of session) [] d)
unfolding sign_in
sign_in_email-IsCareful auth session now d = record {
  fresh = λ h. no_attach h;
  tells = signed_in_reply-Tells (user_of session) _;
}
  where
    no_attach : false ≡ true → is_fresh session now ≡ true
    no_attach e = cc

refused-IsCareful :
    (session : Option Session) (now : ℕ) (h : Handled)
    → has_attached h.calls ≡ false
    → Tells (user_of session) h.reply
    → IsCareful session now h
refused-IsCareful session now h none_made t = record {
  fresh = λ a. let e : false ≡ true = sym none_made ∙ a in cc;
  tells = t;
}

-- Whatever the authentication library answers: the route `google` calls its linkSocialAccount or
-- changeEmail only for a session that may change its identity, and a reply with an account says that
-- the device's ledger was left behind, and whose it was, exactly when the account is not the
-- session's. What the library links as it signs somebody in is its own.
pub google-IsCareful :
    (auth : Auth) (session : Option Session) (allow_sign_in : Bool) (now : ℕ) (d : Directory)
    → IsCareful session now (google auth session allow_sign_in now d)
unfolding google stale_for_identity_change
google-IsCareful auth none allow now d = sign_in_social-IsCareful auth none now d
google-IsCareful auth (some s) allow now d = elim (Bool-cases (may_change_identity s now)) [
  | inl fresh ↦
      rw fresh (after_link-IsCareful auth now s fresh allow (auth.call link_social_account d))
  | inr stale ↦ elim (Bool-cases allow) [
    | inl allowed ↦ rw (stale, allowed) (sign_in_social-IsCareful auth (some s) now d)
    | inr not_allowed ↦ rw (stale, not_allowed) (refused-IsCareful (some s) now _ refl tt)
  ]
]

-- Whatever the authentication library does: an emailed code, to attach the address or to sign in,
-- attaches it to a session only if the session may change its identity, and a reply with an account
-- says that the device's ledger was left behind, and whose it was, exactly when the account is not
-- the session's.
pub email_verify-IsCareful :
    (auth : Auth) (session : Option Session) (link_pending : Bool) (now : ℕ) (d : Directory)
    → IsCareful session now (email_verify auth session link_pending now d)
unfolding email_verify stale_for_identity_change
email_verify-IsCareful auth session false now d = sign_in_email-IsCareful auth session now d
email_verify-IsCareful auth none true now d = refused-IsCareful none now _ refl tt
email_verify-IsCareful auth (some s) true now d = elim (Bool-cases (may_change_identity s now)) [
  | inl fresh ↦ rw fresh (after_change-IsCareful auth now s fresh (auth.call change_email d))
  | inr stale ↦ rw stale (refused-IsCareful (some s) now _ refl tt)
]
