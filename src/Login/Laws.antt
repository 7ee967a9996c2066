-- ===== src/Login/Laws.antt =====
-- What a login by a code promises: the code that was sent lets its user in.
use tomafix_backend.Prelude.{
  ℕ, ◌+◌, ◌<◌, ◌≡◌, refl, sym, ap, ◌∙◌, subst, Bool, true, false, List, [], ◌∷◌, Option, none, some,
  Text, trim, lower, is_empty, nat_eq, list_eq, ==_refl, find, update_first, ok, or_throw-some,
  Bool-cases, inl, inr, arith, has_unit, split_at-two, find-append_new, lt→ltb,
}
use tomafix_backend.Login.Codes.{
  Code, User, Store, Error, colon, hash_otp, verify_otp_hash, is_usable, is_open,
}
use tomafix_backend.Login.Handlers.{
  has_email, has_id, with_phone, resident_phone, takes_phone, sync_user_phone, sent, just_sent,
  upsert_user, upsert_found, new_user, send_to_user, send_login_otp, new_code, life_ms, session,
  try_code, verify_for_user, verify_login_otp,
}

-- The user that has an email is still found when a phone is written.
same_user :
    (q p : User → Bool) (f : User → User) (us : List User) (u : User)
    → ((x : User) → q (f x) ≡ q x)
    → ((x : User) → (f x).id ≡ x.id)
    → find q us ≡ some u
    → (u' : User) × (find q (update_first p f us) ≡ some u') × (u'.id ≡ u.id)
same_user q p f [] u keep same e = absurd (cc e)
same_user q p f (x ∷ us) u keep same e = elim (Bool-cases (q x)) [
  | inl t ↦
      let x_is_u : x ≡ u = ground arith in
      elim (Bool-cases (p x)) [
        | inl t' ↦ (f x, rw (t', keep x, t) refl, same x ∙ ap (λ (u : User). u.id) x_is_u)
        | inr t' ↦ (x, rw (t', t) refl, ap (λ (u : User). u.id) x_is_u)
      ]
  | inr t ↦
      let later = rw t at e in
      elim (Bool-cases (p x)) [
        | inl t' ↦ (u, rw (t', keep x, t) later, refl)
        | inr t' ↦
            let (u', found, same_id) = same_user q p f us u keep same later in
            (u', rw (t', t) found, same_id)
      ]
]

upserted-found :
    (user_id : ℕ) (email : Text) (s : Store) (o : Option User)
    → find (has_email email) s.users ≡ o
    → find (has_email email) (upsert_found user_id email o s).1.users
      ≡ some (upsert_found user_id email o s).0
upserted-found user_id email s (some u) e = e
upserted-found user_id email s none e =
    find-append_new (has_email email) s.users (new_user user_id email) e ∙ rw (==_refl email) refl

-- After the phone is looked up, the user has the same id.
synced_user :
    (id : ℕ) (email address : Text) (s : Store) (u : User)
    → find (has_email email) s.users ≡ some u
    → (u' : User) × (find (has_email email) (sync_user_phone id address s).1.users ≡ some u')
      × (u'.id ≡ u.id)
synced_user id email address s u e =
    elim (Bool-cases (takes_phone id (resident_phone address s) s)) [
      | inl t ↦ rw t (
          same_user (has_email email) (has_id id) (with_phone (resident_phone address s)) s.users u
            (λ _. refl) (λ _. refl) e)
      | inr t ↦ rw t (u, e, refl)
    ]

module _ (scrypt : Text → Text → Text) where
  -- The digest of a code is the digest that is compared with it.
  hash-matches :
      (salt code : Text)
      → is_empty salt ≡ false
      → has_unit colon salt ≡ false
      → is_empty (scrypt code salt) ≡ false
      → has_unit colon (scrypt code salt) ≡ false
      → verify_otp_hash scrypt code (hash_otp scrypt salt code) ≡ true
  hash-matches salt code a b c d =
      rw (split_at-two colon salt (scrypt code salt) b d, a, c, ==_refl (scrypt code salt)) refl

  module _ (now later id : ℕ) (salt code email : Text) (uid : ℕ) (in_time : later < now + life_ms)
      (matches : verify_otp_hash scrypt code (hash_otp scrypt salt code) ≡ true) where
    first_usable :
        (codes : List Code)
        → find (is_usable later uid email) (new_code scrypt now id salt code uid email ∷ codes)
          ≡ some (new_code scrypt now id salt code uid email)
    first_usable codes = rw (==_refl uid, ==_refl email, lt→ltb later (now + life_ms) in_time) refl

    -- The newest code of the user is the right one.
    lets_in :
        (s : Store) (codes : List Code) (u : User)
        → s.codes ≡ new_code scrypt now id salt code uid email ∷ codes
        → u.id ≡ uid
        → (verify_for_user scrypt later email code u s).0 ≡ ok (session later uid)
    lets_in s codes u e same =
        let usable =
          subst
            (λ w.
              find (is_usable later w email) s.codes
              ≡ some (new_code scrypt now id salt code uid email))
            (sym same) (rw e (first_usable codes)) in
        ap (λ out. out.0)
          (or_throw-some Error.no_code (try_code scrypt later code u.id)
            (sync_user_phone u.id email s).1 (find (is_usable later u.id email) s.codes) usable)
        ∙ rw (matches, same) refl

  -- What a call that answers that it has sent a code has written.
  sent_state :
      (mail_fails : Bool) (now id : ℕ) (salt code email : Text) (uid : ℕ) (s : Store)
      → (send_to_user scrypt mail_fails now id salt code email uid s).0 ≡ ok sent
      → (send_to_user scrypt mail_fails now id salt code email uid s).1
        ≡ record (sync_user_phone uid email s).1 {
          codes = new_code scrypt now id salt code uid email ∷ s.codes;
        }
  sent_state mail_fails now id salt code email uid s h =
      elim (Bool-cases (just_sent now (find (is_open uid email) s.codes))) [
        | inl soon ↦ let waits = rw soon at h in absurd (cc waits)
        | inr late ↦ elim (Bool-cases mail_fails) [
          | inl fails ↦ let thrown = rw (late, fails) at h in absurd (cc thrown)
          | inr fine ↦ rw (late, fine) refl
        ]
      ]

  module _ (mail_fails : Bool) (now later id user_id : ℕ) (salt code input : Text) (s : Store)
      (accepted : (send_login_otp scrypt mail_fails now id user_id salt code input s).0 ≡ ok sent)
      (in_time : later < now + life_ms) (plain : trim code ≡ code) (shown : is_empty code ≡ false)
      (salted : is_empty salt ≡ false) (salt_plain : has_unit colon salt ≡ false)
      (derived : is_empty (scrypt code salt) ≡ false)
      (derived_plain : has_unit colon (scrypt code salt) ≡ false) where
    -- Who logs in.
    abbrev pub who : ℕ
    who = (upsert_user user_id (lower (trim input)) s).0.id

    verifies :
        (s' : Store) (codes : List Code) (u : User)
        → is_empty (lower (trim input)) ≡ false
        → find (has_email (lower (trim input))) s'.users ≡ some u
        → u.id ≡ who
        → s'.codes ≡ new_code scrypt now id salt code who (lower (trim input)) ∷ codes
        → (verify_login_otp scrypt later input code s').0 ≡ ok (session later who)
    unfolding verify_login_otp
    verifies s' codes u given found same e =
        rw (plain, given, shown)
          (ap (λ out. out.0)
              (or_throw-some Error.invalid_login
                (verify_for_user scrypt later (lower (trim input)) code) s'
                (find (has_email (lower (trim input))) s'.users) found)
            ∙ lets_in now later id salt code (lower (trim input)) who in_time
                (hash-matches salt code salted salt_plain derived derived_plain) s' codes u e same)

    -- If the call that sends a code answers that it has sent it, the code and the salt and digest
    -- that it is kept with are not empty, the salt and the digest have no colon, and the code has
    -- no space around it, then with the same email and the code, less than ten minutes later, the
    -- user logs in, with a session of a week.
    pub verify_login_otp-send_login_otp :
        (verify_login_otp scrypt later input code
          (send_login_otp scrypt mail_fails now id user_id salt code input s).1).0
        ≡ ok (session later who)
    unfolding send_login_otp
    verify_login_otp-send_login_otp = elim (Bool-cases (is_empty (lower (trim input)))) [
      | inl none_given ↦ let thrown = rw none_given at accepted in absurd (cc thrown)
      | inr given ↦
          let email = lower (trim input) in
          let s1 = (upsert_user user_id email s).1 in
          let first = upserted-found user_id email s (find (has_email email) s.users) refl in
          let (u, found, same) = synced_user who email email s1 _ first in
          let accepted' = rw given at accepted in
          let e = sent_state mail_fails now id salt code email who s1 accepted' in
          rw given (
            subst
              (λ (s' : Store).
                (verify_login_otp scrypt later input code s').0 ≡ ok (session later who))
              (sym e)
              (verifies
                (record (sync_user_phone who email s1).1 {
                  codes = new_code scrypt now id salt code who email ∷ s1.codes;
                })
                s1.codes u given found same refl))
    ]
