-- ===== src/Login/Tests.antt =====
-- The theorems on logins at one user, with a digest that repeats the code behind its salt.
use tomafix_backend.Prelude.{
  ◌≡◌, refl, false, List, [], ◌∷◌, ◌++◌, none, some, Text, codes, trim, lower, arith, ok, err,
}
use tomafix_backend.Login.Codes.{Store}
use tomafix_backend.Login.Tokens.{
  Claims, sign_token, verify_token, verify_token-sign_token, TokenError, assert_token_not_revoked,
  assert_token_not_revoked_lem,
}
use tomafix_backend.Prelude.{Option, ◌+◌, ◌*◌, ◌≤◌, ◌<◌, ◌↔◌}
use tomafix_backend.Login.Handlers.{week_sec, Session, send_login_otp, verify_login_otp, session}
use tomafix_backend.Login.Laws.{verify_login_otp-send_login_otp}
use tomafix_backend.Login.Guesses.{IsBounded, Guess, after_guesses, after_guesses-IsBounded}

abbrev digest : Text → Text → Text
digest code salt = codes "d" ++ code

abbrev one_user : Store
one_user = record {
  users = record { id = 4; email = some (codes "a@x.y"); phone = none } ∷ [];
  codes = [];
  estate_residents = [];
  apartment_residents = [];
}

abbrev after_send : Store
after_send =
    (send_login_otp digest false 5000 1 9 (codes "s") (codes "123456") (codes " A@x.y") one_user).1

verify_login_otp-send_login_otp_example :
    (verify_login_otp digest 6000 (codes " A@x.y") (codes "123456") after_send).0
    ≡ ok (session 6000 4)
unfolding send_login_otp trim lower
verify_login_otp-send_login_otp_example =
    verify_login_otp-send_login_otp digest false 5000 6000 1 9 (codes "s") (codes "123456")
      (codes " A@x.y") one_user refl (omega arith) refl refl refl refl refl refl

abbrev guesses : List Guess
guesses =
    record { time = 6000; email = codes "a@x.y"; code = codes "1" }
    ∷ record { time = 6001; email = codes "a@x.y"; code = codes "123456" }
    ∷ []

after_guesses-IsBounded_example : IsBounded (after_guesses digest guesses after_send).codes
unfolding send_login_otp trim lower
after_guesses-IsBounded_example =
    after_guesses-IsBounded digest guesses after_send ((tt, tt), (omega arith, tt))

abbrev week : Session
week = session 6000 4

-- A payload is encoded as one unit, and its digest is one unit.
abbrev encoded : Session → Text
encoded p = codes "p"

abbrev decoded : Text → Option Claims
decoded t = some (record { uid = some 4; iat = some 6; exp = some (6 + week_sec) })

abbrev hmac : Text → Text
hmac t = codes "h"

verify_token-sign_token_example :
    verify_token encoded decoded hmac 9000 (sign_token encoded decoded hmac week) ≡ ok week
verify_token-sign_token_example =
    verify_token-sign_token encoded decoded hmac 9000 week refl refl refl refl refl (omega arith)
      (omega arith) (omega arith)

assert_token_not_revoked_lem_example :
    ((assert_token_not_revoked (some 8000) 6 ≡ err TokenError.session_revoked)
      ↔ ((6 + 2) * 1000 ≤ 8000))
    × ((assert_token_not_revoked (some 8000) 6 ≡ ok tt) ↔ (8000 < (6 + 2) * 1000))
    × (assert_token_not_revoked (some 8000) (session 9000 4).iat ≡ ok tt)
assert_token_not_revoked_lem_example = assert_token_not_revoked_lem 8000 6 9000 4 (omega arith)
