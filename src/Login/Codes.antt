-- ===== src/Login/Codes.antt =====
-- auth/auth.service.ts: the rows that a login reads and writes, and `hashOtp` and `verifyOtpHash`.
-- A code is kept as its salt and what `scrypt` derives, which is an argument. The table of codes
-- has the newest first, and only those for a login by email, which are all that the queries match.
use tomafix_backend.Prelude.{
  ℕ, Bool, false, not, ◌&&◌, List, ◌∷◌, ◌++◌, Option, Text, split_at, is_empty, ◌==◌, nat_eq,
  list_eq, is_some, ltb,
}

pub record Code : Type 0 where
  pub id : ℕ
  pub user_id : ℕ
  pub target : Text
  pub code_hash : Text
  pub expires_at : ℕ
  pub attempts : ℕ
  pub consumed_at : Option ℕ
  pub created_at : ℕ

pub record User : Type 0 where
  pub id : ℕ
  pub email : Option Text
  pub phone : Option Text

-- A resident of an apartment or an estate, as far as a login looks.
pub record Contact : Type 0 where
  pub email : Option Text
  pub phone : Option Text

pub record Store : Type 0 where
  pub users : List User
  pub codes : List Code
  pub estate_residents : List Contact
  pub apartment_residents : List Contact

pub data Error : Type 0 where
  email_required email_and_code_required invalid_login no_code too_many_attempts mail_failed : Error
  wrong_code : ℕ → Error

-- The unit of `:`
abbrev pub colon : ℕ
colon = 58

module _ (scrypt : Text → Text → Text) where
  -- `hashOtp`, with the salt that it draws
  abbrev pub hash_otp : Text → Text → Text
  hash_otp salt code = salt ++ colon ∷ scrypt code salt

  abbrev pub matches_parts : Text → List Text → Bool
  matches_parts code (salt ∷ hash ∷ _) =
      not (is_empty salt) && not (is_empty hash) && hash == scrypt code salt
  matches_parts code _ = false

  -- `verifyOtpHash`
  abbrev pub verify_otp_hash : Text → Text → Bool
  verify_otp_hash code stored = matches_parts code (split_at colon stored)

-- `where: { userId, target: email, consumedAt: null }`
abbrev pub is_open : ℕ → Text → Code → Bool
is_open user_id email c = c.user_id == user_id && c.target == email && not (is_some c.consumed_at)

-- `expiresAt: { gt: now }`
abbrev pub is_usable : ℕ → ℕ → Text → Code → Bool
is_usable now user_id email c = is_open user_id email c && ltb now c.expires_at
