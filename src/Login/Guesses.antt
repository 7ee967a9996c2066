-- ===== src/Login/Guesses.antt =====
-- What a sequence of guesses can do to the codes: at most five are compared with any of them.
use tomafix_backend.Prelude.{
  ℕ, ◌≤◌, ◌≡◌, ◌≢◌, refl, sym, ap, subst, Bool, true, ◌||◌, List, [], ◌∷◌, some, Text, trim, lower,
  is_empty, ◌==◌, nat_eq, list_eq, leb, find, update_first, ◌>>=◌, gets, or_throw, or_throw-ends,
  throw_if-ends, Bool-cases, inl, inr, arith, All, All-find, All-update_first, Pairwise,
  Pairwise-update_first, All-of_each, update_first-none, Option-cases,
}
use tomafix_backend.Login.Codes.{Code, Store, Error, verify_otp_hash, is_usable}
use tomafix_backend.Login.Handlers.{
  has_email, sync_user_phone, max_attempts, consumed, missed, try_code, verify_for_user,
  verify_login_otp,
}

-- The primary key is unique.
abbrev pub IsKeyed : List Code → Type 0
IsKeyed codes = Pairwise (λ c d. c.id ≢ d.id) codes

abbrev pub IsBounded : List Code → Type 0
IsBounded codes = IsKeyed codes × All (λ c. c.attempts ≤ max_attempts) codes

abbrev has_key : ℕ → Code → Bool
has_key id c = c.id == id

-- The row that is found is the one that its key finds.
key-found :
    (q : Code → Bool) (codes : List Code) (c : Code)
    → IsKeyed codes
    → find q codes ≡ some c
    → find (has_key c.id) codes ≡ some c
key-found q [] c k e = absurd (cc e)
key-found q (x ∷ codes) c (k, ks) e = elim (Bool-cases (q x)) [
  | inl t ↦
      let same : x ≡ c = ground arith in
      let own : has_key c.id x ≡ true = (nat_eq.same_iff _ _).1 (ap (λ (c : Code). c.id) same) in
      rw own (ap some same)
  | inr t ↦
      let later = rw t at e in
      let ne = All-find (λ y. x.id ≢ y.id) q codes {x = c} k later in
      elim (Bool-cases (has_key c.id x)) [
        | inl own ↦ absurd (ne ((nat_eq.same_iff _ _).0 own))
        | inr other ↦ rw other (key-found q codes c ks later)
      ]
]

IsKeyed-update_first :
    (id : ℕ) (f : Code → Code) (codes : List Code)
    → ((c : Code) → (f c).id ≡ c.id)
    → IsKeyed codes
    → IsKeyed (update_first (has_key id) f codes)
IsKeyed-update_first id f codes keeps k = elim (Option-cases (find (has_key id) codes)) [
  | inl missing ↦ subst IsKeyed (sym (update_first-none (has_key id) f codes missing)) k
  | inr (c, found) ↦
      Pairwise-update_first (λ c d. c.id ≢ d.id) (λ c d ne e. ne (sym e)) (has_key id) f codes c
        found (All-of_each _ codes λ d ne. rw (keeps c) ne) k
]

module _ (c : Code) (codes : List Code) (h : IsBounded codes)
    (found : find (has_key c.id) codes ≡ some c) where
  IsBounded-update :
      (f : Code → Code)
      → ((c : Code) → (f c).id ≡ c.id)
      → (f c).attempts ≤ max_attempts
      → IsBounded (update_first (has_key c.id) f codes)
  IsBounded-update f keeps small = (
    IsKeyed-update_first c.id f codes keeps h.0,
    All-update_first (λ c. c.attempts ≤ max_attempts) (has_key c.id) f codes h.1
        λ x e.
          let same : c ≡ x = cc (found, e) in subst (λ x. (f x).attempts ≤ max_attempts) same small,
  )

-- A call of `verifyLoginOtp`.
pub record Guess : Type 0 where
  pub time : ℕ
  pub email : Text
  pub code : Text

module _ (scrypt : Text → Text → Text) where
  tried-IsBounded :
      (now : ℕ) (code : Text) (uid : ℕ) (c : Code) (s : Store)
      → IsBounded s.codes
      → find (has_key c.id) s.codes ≡ some c
      → IsBounded (try_code scrypt now code uid c s).1.codes
  tried-IsBounded now code uid c s h found =
      let small =
        All-find (λ c. c.attempts ≤ max_attempts) (has_key c.id) s.codes {x = c} h.1 found in
      elim (Bool-cases (leb max_attempts c.attempts)) [
        | inl spent ↦ rw spent (IsBounded-update c s.codes h found (consumed now) (λ _. refl) small)
        | inr left ↦ elim (Bool-cases (verify_otp_hash scrypt code c.code_hash)) [
          | inl right ↦
              rw (left, right) (IsBounded-update c s.codes h found (consumed now) (λ _. refl) small)
          | inr wrong ↦
              rw (left, wrong)
                (IsBounded-update c s.codes h found missed (λ _. refl) (ground (arith, left)))
        ]
      ]

  guess-IsBounded :
      (now : ℕ) (input code_input : Text) (s : Store)
      → IsBounded s.codes
      → IsBounded (verify_login_otp scrypt now input code_input s).1.codes
  unfolding verify_login_otp
  guess-IsBounded now input code_input s h =
      let email = lower (trim input) in
      let code = trim code_input in
      let P : Store → Type 0 = λ s. IsBounded s.codes in
      throw_if-ends P (is_empty email || is_empty code) Error.email_and_code_required
        (gets (λ s. find (has_email email) s.users) >>= λ found.
          or_throw Error.invalid_login found >>= verify_for_user scrypt now email code)
        s h
        λ _.
          or_throw-ends P Error.invalid_login (find (has_email email) s.users)
            (verify_for_user scrypt now email code) s h
            λ u _.
              or_throw-ends P Error.no_code (find (is_usable now u.id email) s.codes)
                (try_code scrypt now code u.id) (sync_user_phone u.id email s).1 h
                λ c found.
                  tried-IsBounded now code u.id c (sync_user_phone u.id email s).1 h
                    (key-found (is_usable now u.id email) s.codes c h.0 found)

  -- The store after a sequence of guesses, right or wrong.
  abbrev pub after_guesses : List Guess → Store → Store
  after_guesses [] s = s
  after_guesses (g ∷ gs) s = after_guesses gs (verify_login_otp scrypt g.time g.email g.code s).1

  -- Over any sequence of calls of verifyLoginOtp, with whatever emails and codes, no code of the
  -- table counts more than five wrong guesses and the ids of the codes stay different, if this held
  -- before.
  pub after_guesses-IsBounded :
      (gs : List Guess) (s : Store) → IsBounded s.codes → IsBounded (after_guesses gs s).codes
  after_guesses-IsBounded [] s h = h
  after_guesses-IsBounded (g ∷ gs) s h =
      after_guesses-IsBounded gs (verify_login_otp scrypt g.time g.email g.code s).1
        (guess-IsBounded g.time g.email g.code s h)
