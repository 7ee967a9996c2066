-- ===== src/Login/Tokens.antt =====
-- auth/auth.service.ts: `signToken`, `verifyToken`, `assertTokenNotRevoked`. The encoding of a
-- payload (JSON in base64url), its decoding and the HMAC are arguments; a field of a decoded payload
-- may be missing. A token without a time of issue takes it from its expiry, which is more than a week
-- after 1970 when it is not over.
use tomafix_backend.Prelude.{
  ℕ, ◌+◌, ◌-◌, ◌/◌, ◌<◌, ◌≤◌, ◌≡◌, false, not, ◌||◌, ◌++◌, List, ◌∷◌, Option, none, some, Text,
  split_at, has_unit, split_at-two, is_empty, ◌==◌, nat_eq, list_eq, ==_refl, if◌then◌else◌, ltb,
  Result, ok, err, arith, or_else, ◌*◌, ◌↔◌,
}
use tomafix_backend.Login.Handlers.{Session, session, week_sec}

pub data TokenError : Type 0 where
  invalid_token invalid_signature invalid_payload token_expired : TokenError
  user_not_found session_revoked : TokenError

pub record Claims : Type 0 where
  pub uid : Option ℕ
  pub iat : Option ℕ
  pub exp : Option ℕ

-- The unit of `.`
abbrev pub dot : ℕ
dot = 46

-- `!payload.exp` and `!payload.iat`: missing, or zero.
abbrev pub nonzero : Option ℕ → Option ℕ
nonzero none = none
nonzero (some n) = if n == 0 then none else some n

abbrev pub claimed : ℕ → Option ℕ → Option ℕ → Option ℕ → Result TokenError Session
claimed now (some uid) iat (some exp) =
    if ltb exp (now / 1000)
    then err TokenError.token_expired
    else ok (record { uid = uid; iat = or_else iat (exp - week_sec); exp = exp })
claimed now _ _ _ = err TokenError.invalid_payload

abbrev pub check_claims : ℕ → Option Claims → Result TokenError Session
check_claims now none = err TokenError.invalid_payload
check_claims now (some c) = claimed now c.uid (nonzero c.iat) (nonzero c.exp)

module _ (encode : Session → Text) (decode : Text → Option Claims) (mac : Text → Text) where
  -- `signToken`
  pub sign_token : Session → Text
  sign_token payload = encode payload ++ dot ∷ mac (encode payload)

  abbrev pub verify_parts : ℕ → List Text → Result TokenError Session
  verify_parts now (body ∷ sig ∷ _) =
      if is_empty body || is_empty sig
      then err TokenError.invalid_token
      else if not (sig == mac body)
      then err TokenError.invalid_signature
      else check_claims now (decode body)
  verify_parts now _ = err TokenError.invalid_token

  -- `verifyToken`
  pub verify_token : ℕ → Text → Result TokenError Session
  verify_token now token = verify_parts now (split_at dot token)

  module _ (now : ℕ) (payload : Session)
      (decodes : decode (encode payload)
        ≡ some (record { uid = some payload.uid; iat = some payload.iat; exp = some payload.exp }))
      (body : is_empty (encode payload) ≡ false)
      (body_plain : has_unit dot (encode payload) ≡ false)
      (signed : is_empty (mac (encode payload)) ≡ false)
      (sig_plain : has_unit dot (mac (encode payload)) ≡ false) (issued : 0 < payload.iat)
      (fresh : now / 1000 ≤ payload.exp) (ends : 0 < payload.exp) where
    -- A token that was signed is verified until the second of its expiry, and gives its payload back,
    -- if the payload has a time of issue and of expiry and is decoded to what was encoded, and the
    -- encoded payload and its HMAC are not empty and have no dot.
    pub verify_token-sign_token : verify_token now (sign_token payload) ≡ ok payload
    unfolding verify_token sign_token
    verify_token-sign_token =
        rw
          (
            split_at-two dot (encode payload) (mac (encode payload)) body_plain sig_plain,
            body,
            signed,
            ==_refl (mac (encode payload)),
            decodes,
          )
          (ground (
            arith,
            issued,
            fresh,
            ends,
            nat_eq.same_iff payload.iat 0,
            nat_eq.same_iff payload.exp 0,
          ))

-- `assertTokenNotRevoked`, of the `updatedAt` of the user if there is one
unfoldable pub assert_token_not_revoked : Option ℕ → ℕ → Result TokenError (Unit {0})
assert_token_not_revoked none iat = err TokenError.user_not_found
assert_token_not_revoked (some updated_at) iat =
    if ltb (iat + 1) (updated_at / 1000) then err TokenError.session_revoked else ok tt

revoked_iff :
    (updated iat : ℕ)
    → (assert_token_not_revoked (some updated) iat ≡ err TokenError.session_revoked)
      ↔ ((iat + 2) * 1000 ≤ updated)
unfolding assert_token_not_revoked
revoked_iff updated iat = (λ e. ground (arith, e), λ h. ground (arith, h))

stands_iff :
    (updated iat : ℕ)
    → (assert_token_not_revoked (some updated) iat ≡ ok tt) ↔ (updated < (iat + 2) * 1000)
unfolding assert_token_not_revoked
stands_iff updated iat = (λ e. ground (arith, e), λ h. ground (arith, h))

-- A session is refused exactly when its user was written two seconds after the second of its issue
-- or later, and accepted exactly when before that; and a session that begins when its user has been
-- written already is accepted.
pub assert_token_not_revoked_lem :
    (updated iat now uid : ℕ)
    → updated ≤ now
    → ((assert_token_not_revoked (some updated) iat ≡ err TokenError.session_revoked)
        ↔ ((iat + 2) * 1000 ≤ updated))
      × ((assert_token_not_revoked (some updated) iat ≡ ok tt) ↔ (updated < (iat + 2) * 1000))
      × (assert_token_not_revoked (some updated) (session now uid).iat ≡ ok tt)
assert_token_not_revoked_lem updated iat now uid h = (
  revoked_iff updated iat,
  stands_iff updated iat,
  (stands_iff updated (session now uid).iat).1 (omega (arith, h)),
)
