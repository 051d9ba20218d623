-- ===== src/Tests/Identity.antt =====
-- A device of account 77 signs in with an identity that is account 78's.
use opensplit.Prelude.{none, some, true, false}
use opensplit.Identity.{
  Account, AuthAnswer, signed_in, already_claimed, failed, AuthCall, link_social_account,
  sign_in_social, change_email, sign_in_email, Auth, google, email_verify,
}
use opensplit.Identity.Fresh.{IsCareful, google-IsCareful, email_verify-IsCareful}
use opensplit.Tests.Accounts.{people, session}

abbrev other : Account
other = record { id = 78; is_anonymous = false; email = none }

abbrev answer : AuthCall → AuthAnswer
answer link_social_account = already_claimed
answer sign_in_social = signed_in other (some 901)
answer change_email = failed
answer sign_in_email = signed_in other none

abbrev auth : Auth
auth = record { call = λ by d. (answer by, d) }

google-IsCareful_example :
    IsCareful (some session) 1000000 (google auth (some session) true 1000000 people)
google-IsCareful_example = google-IsCareful auth (some session) true 1000000 people

email_verify-IsCareful_example :
    IsCareful (some session) 1000000 (email_verify auth (some session) true 1000000 people)
email_verify-IsCareful_example = email_verify-IsCareful auth (some session) true 1000000 people
