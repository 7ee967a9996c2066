-- ===== src/Login/Handlers.antt =====
-- auth/auth.service.ts: `syncUserPhoneFromResidentRecords`, `sendLoginOtp` and `verifyLoginOtp`.
-- The time of a call (`now`), what the database generates, the salt and the code that are drawn
-- are arguments, and so is whether the mail fails in production.
use tomafix_backend.Prelude.{
  suc, ℕ, ◌+◌, ◌-◌, ◌*◌, ◌/◌, max, Bool, true, false, not, ◌&&◌, ◌||◌, [], ◌∷◌, ◌++◌, Option, none,
  some, Text, trim, lower, is_empty, ◌==◌, nat_eq, list_eq, if◌then◌else◌, ltb, leb, or_else,
  is_some, find, update_first, Action, ◌>>=◌, ◌>>◌, pure, throw, gets, modify, throw_if, or_throw,
}
use tomafix_backend.Login.Codes.{
  Code, User, Contact, Store, Error, hash_otp, verify_otp_hash, is_open, is_usable,
}

abbrev pub has_email : Text → User → Bool
has_email email u = elim u.email [ none ↦ false | some e ↦ e == email ]

abbrev pub has_id : ℕ → User → Bool
has_id id u = u.id == id

abbrev pub with_phone : Text → User → User
with_phone phone u = record u { phone = some phone }

abbrev pub contact_has : Text → Contact → Bool
contact_has email c = elim c.email [ none ↦ false | some e ↦ e == email ]

-- `resident?.phone || …`, when it is there and not empty
abbrev pub phone_of : Option Contact → Text
phone_of none = []
phone_of (some c) = or_else c.phone []

abbrev pub resident_phone : Text → Store → Text
resident_phone email s =
    let estate = phone_of (find (contact_has email) s.estate_residents) in
    trim (
      if is_empty estate then phone_of (find (contact_has email) s.apartment_residents) else estate)

abbrev pub has_phone : User → Bool
has_phone u = not (is_empty (or_else u.phone []))

abbrev pub takes_phone : ℕ → Text → Store → Bool
takes_phone id phone s =
    not (is_empty phone)
    && not (elim (find (has_id id) s.users) [ none ↦ true | some u ↦ has_phone u ])
    && not (
        is_some (
          find (λ u. elim u.phone [ none ↦ false | some p ↦ p == phone ] && not (u.id == id))
            s.users))

-- `syncUserPhoneFromResidentRecords`, of an email in lower case
abbrev pub sync_user_phone : ℕ → Text → Action Store Error (Unit {0})
sync_user_phone id email = modify (λ s. record s {
  users =
      if takes_phone id (resident_phone email s) s
      then update_first (has_id id) (with_phone (resident_phone email s)) s.users
      else s.users;
})

-- What `sendLoginOtp` answers.
pub data Sending : Type 0 where
  sent : Sending
  wait : ℕ → Sending

abbrev pub resend_ms : ℕ
resend_ms = 30 * 1000

abbrev pub life_ms : ℕ
life_ms = 10 * 60 * 1000

-- `Math.max(1, Math.ceil(30 - secondsSince))`
abbrev pub retry_after : ℕ → ℕ → ℕ
retry_after now created = max 1 ((created + resend_ms - now + 999) / 1000)

-- `upsert({ where: { email }, update: {}, create: { email } })`
abbrev pub new_user : ℕ → Text → User
new_user id email = record { id = id; email = some email; phone = none }

abbrev pub upsert_found : ℕ → Text → Option User → Store → User × Store
upsert_found user_id email (some u) s = (u, s)
upsert_found user_id email none s =
    (new_user user_id email, record s { users = s.users ++ new_user user_id email ∷ [] })

abbrev pub upsert_user : ℕ → Text → Store → User × Store
upsert_user user_id email s = upsert_found user_id email (find (has_email email) s.users) s

abbrev pub just_sent : ℕ → Option Code → Bool
just_sent now none = false
just_sent now (some c) = ltb now (c.created_at + resend_ms)

abbrev pub created_of : Option Code → ℕ
created_of none = 0
created_of (some c) = c.created_at

abbrev pub max_attempts : ℕ
max_attempts = 5

abbrev pub consumed : ℕ → Code → Code
consumed now c = record c { consumed_at = some now }

abbrev pub missed : Code → Code
missed c = record c { attempts = suc c.attempts }

abbrev pub update_code : ℕ → (Code → Code) → Action Store Error (Unit {0})
update_code id f = modify (λ s. record s { codes = update_first (λ c. c.id == id) f s.codes })

-- A session: the payload of its token, in seconds.
pub record Session : Type 0 where
  pub uid : ℕ
  pub iat : ℕ
  pub exp : ℕ

abbrev pub week_sec : ℕ
week_sec = 60 * 60 * 24 * 7

abbrev pub session : ℕ → ℕ → Session
session now uid = record { uid = uid; iat = now / 1000; exp = now / 1000 + week_sec }

module _ (scrypt : Text → Text → Text) where
  abbrev pub new_code : ℕ → ℕ → Text → Text → ℕ → Text → Code
  new_code now id salt code user_id email = record {
    id = id;
    user_id = user_id;
    target = email;
    code_hash = hash_otp scrypt salt code;
    expires_at = now + life_ms;
    attempts = 0;
    consumed_at = none;
    created_at = now;
  }

  abbrev pub send_to_user : Bool → ℕ → ℕ → Text → Text → Text → ℕ → Action Store Error Sending
  send_to_user mail_fails now id salt code email user_id = do
    sync_user_phone user_id email
    latest ← gets (λ s. find (is_open user_id email) s.codes)
    if just_sent now latest
        then pure (wait (retry_after now (created_of latest)))
        else modify (λ s. record s { codes = new_code now id salt code user_id email ∷ s.codes })
          >> (throw_if mail_fails Error.mail_failed >> pure sent)

  -- `sendLoginOtp`
  unfoldable pub send_login_otp : Bool → ℕ → ℕ → ℕ → Text → Text → Text → Action Store Error Sending
  send_login_otp mail_fails now id user_id salt code input =
      let email = lower (trim input) in
      throw_if (is_empty email) Error.email_required >> (λ s.
        let (u, s') = upsert_user user_id email s in
        send_to_user mail_fails now id salt code email u.id s')

  abbrev pub try_code : ℕ → Text → ℕ → Code → Action Store Error Session
  try_code now code uid c =
      if leb max_attempts c.attempts
      then update_code c.id (consumed now) >> throw Error.too_many_attempts
      else if verify_otp_hash scrypt code c.code_hash
      then update_code c.id (consumed now) >> pure (session now uid)
      else update_code c.id missed >> throw (Error.wrong_code (max_attempts - suc c.attempts))

  abbrev pub verify_for_user : ℕ → Text → Text → User → Action Store Error Session
  verify_for_user now email code u = do
    sync_user_phone u.id email
    found ← gets (λ s. find (is_usable now u.id email) s.codes)
    c ← or_throw Error.no_code found
    try_code now code u.id c

  -- `verifyLoginOtp`
  unfoldable pub verify_login_otp : ℕ → Text → Text → Action Store Error Session
  verify_login_otp now input code_input =
      let email = lower (trim input) in
      let code = trim code_input in
      throw_if (is_empty email || is_empty code) Error.email_and_code_required
      >> (gets (λ s. find (has_email email) s.users) >>= λ found.
          or_throw Error.invalid_login found >>= verify_for_user now email code)
