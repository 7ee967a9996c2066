-- ===== src/Prelude/Handlers.antt =====
-- Handlers: state, and exceptions that keep what was written before the throw.
use mathlib.Core.Path.{◌≡◌, refl, ap, sym, subst}
use mathlib.Core.Logic.{◌↔◌}
use mathlib.Core.Bool.{Bool, true, false}
use mathlib.Core.Option.{Option, none, some}

-- The reason that a handler throws; `E` is the error type of its component.
pub data Result (E A : Type 0) : Type 0 where
  ok : A → Result E A
  err : E → Result E A

abbrev pub Action : Type 0 → Type 0 → Type 0 → Type 0
Action S E A = S → Result E A × S

module _ {S E : Type 0} where
  infixl 5 ◌>>=◌ ◌>>◌
  abbrev pub ◌>>=◌ : {A B : Type 0} → Action S E A → (A → Action S E B) → Action S E B
  ◌>>=◌ m f s = let (r, s') = m s in elim r [ ok a ↦ f a s' | err e ↦ (err e, s') ]

  -- A step that is known to succeed, or to throw.
  pub >>=_ok :
      {A B : Type 0} (m : Action S E A) (f : A → Action S E B) (s : S) {a : A} {s' : S}
      → m s ≡ (ok a, s')
      → (m >>= f) s ≡ f a s'
  >>=_ok {A} {B} m f s e =
      ap {B = Result E B × S}
        (λ (out : Result E A × S). elim out.0 [ ok a ↦ f a out.1 | err e ↦ (err e, out.1) ]) e

  pub >>=_err :
      {A B : Type 0} (m : Action S E A) (f : A → Action S E B) (s : S) {e : E} {s' : S}
      → m s ≡ (err e, s')
      → (m >>= f) s ≡ (err e, s')
  >>=_err {A} {B} m f s e =
      ap {B = Result E B × S}
        (λ (out : Result E A × S). elim out.0 [ ok a ↦ f a out.1 | err e ↦ (err e, out.1) ]) e

  abbrev pub ◌>>◌ : {A B : Type 0} → Action S E A → Action S E B → Action S E B
  m >> k = m >>= λ _. k

  abbrev pub pure : {A : Type 0} → A → Action S E A
  pure a s = (ok a, s)

  abbrev pub throw : {A : Type 0} → E → Action S E A
  throw e s = (err e, s)

  abbrev pub gets : {A : Type 0} → (S → A) → Action S E A
  gets f s = (ok (f s), s)

  abbrev pub modify : (S → S) → Action S E (Unit {0})
  modify f s = (ok tt, f s)

  abbrev pub throw_if : Bool → E → Action S E (Unit {0})
  throw_if true e s = (err e, s)
  throw_if false e s = (ok tt, s)

  -- `if (!row) throw e`
  abbrev pub or_throw : {A : Type 0} → E → Option A → Action S E A
  or_throw e none s = (err e, s)
  or_throw e (some a) s = (ok a, s)

  abbrev pub committed : {A : Type 0} → S → Result E A × S → Result E A × S
  committed s out = elim out.0 [ ok a ↦ (ok a, out.1) | err e ↦ (err e, s) ]

  -- `$transaction`: a throw rolls the state back.
  abbrev pub transaction : {A : Type 0} → Action S E A → Action S E A
  transaction m s = committed s (m s)

  -- `try { m } catch { handler }`
  abbrev pub catch : {A : Type 0} → Action S E A → (E → Action S E A) → Action S E A
  catch m handler s = let (r, s') = m s in elim r [ ok a ↦ (ok a, s') | err e ↦ handler e s' ]

  -- A row that is there is handed on, and one that is not ends the handler.
  pub or_throw-some :
      {A B : Type 0} (e : E) (f : A → Action S E B) (s : S) (o : Option A) {a : A}
      → o ≡ some a
      → (or_throw e o >>= f) s ≡ f a s
  or_throw-some e f s o found = ap (λ o. (or_throw e o >>= f) s) found

  pub or_throw-none :
      {A B : Type 0} (e : E) (f : A → Action S E B) (s : S) (o : Option A)
      → o ≡ none
      → (or_throw e o >>= f) s ≡ (err e, s)
  or_throw-none e f s o missing = ap (λ o. (or_throw e o >>= f) s) missing

  pub throw_if-false :
      {B : Type 0} (b : Bool) (e : E) (k : Action S E B) (s : S)
      → b ≡ false
      → (throw_if b e >> k) s ≡ k s
  throw_if-false b e k s h = ap (λ b. (throw_if b e >> k) s) h

  pub throw_if-true :
      {B : Type 0} (b : Bool) (e : E) (k : Action S E B) (s : S)
      → b ≡ true
      → (throw_if b e >> k) s ≡ (err e, s)
  throw_if-true b e k s h = ap (λ b. (throw_if b e >> k) s) h

  after_check :
      {P Q : Type 0} (out : Result E (Unit {0}) × S) (k : Action S E (Unit {0}))
      → (out.0 ≡ ok tt) ↔ P
      → ((s' : S) → ((k s').0 ≡ ok tt) ↔ Q)
      → ((elim out.0 as (λ _. Result E (Unit {0}) × S) [
        | ok _ ↦ k out.1
        | err e ↦ (err e, out.1)
      ]).0
          ≡ ok tt)
        ↔ P × Q
  after_check (ok tt, s') k first second =
      (λ h. (first.0 refl, (second s').0 h), λ h. (second s').1 h.1)
  after_check (err e, s') k first second = (λ h. cc, λ h. first.1 h.0)

  -- A check followed by another passes when both do.
  pub >>-ok_iff :
      {P Q : Type 0} (m k : Action S E (Unit {0})) (s : S)
      → ((m s).0 ≡ ok tt) ↔ P
      → ((s' : S) → ((k s').0 ≡ ok tt) ↔ Q)
      → (((m >> k) s).0 ≡ ok tt) ↔ P × Q
  >>-ok_iff m k s first second = after_check (m s) k first second

  -- Inversion of a handler that ends well.
  bind-eq_ok :
      {A B : Type 0} (out : Result E A × S) (f : A → Action S E B) {b : B} {t : S}
      → (elim out.0 as (λ _. Result E B × S) [ ok a ↦ f a out.1 | err e ↦ (err e, out.1) ])
        ≡ (ok b, t)
      → (a : A) × (s' : S) × (out ≡ (ok a, s')) × (f a s' ≡ (ok b, t))
  bind-eq_ok (ok a, s') f h = (a, s', refl, h)
  bind-eq_ok (err e, s') f h = absurd (cc h)

  pub >>=-eq_ok :
      {A B : Type 0} (m : Action S E A) (f : A → Action S E B) (s : S) {b : B} {t : S}
      → (m >>= f) s ≡ (ok b, t)
      → (a : A) × (s' : S) × (m s ≡ (ok a, s')) × (f a s' ≡ (ok b, t))
  >>=-eq_ok m f s h = bind-eq_ok (m s) f h

  pub throw_if-eq_ok :
      {B : Type 0} (c : Bool) (e : E) (k : Action S E B) (s : S) {b : B} {t : S}
      → (throw_if c e >> k) s ≡ (ok b, t)
      → (c ≡ false) × (k s ≡ (ok b, t))
  throw_if-eq_ok true e k s h = absurd (cc h)
  throw_if-eq_ok false e k s h = (refl, h)

  pub or_throw-eq_ok :
      {A B : Type 0} (e : E) (o : Option A) (f : A → Action S E B) (s : S) {b : B} {t : S}
      → (or_throw e o >>= f) s ≡ (ok b, t)
      → (a : A) × (o ≡ some a) × (f a s ≡ (ok b, t))
  or_throw-eq_ok e none f s h = absurd (cc h)
  or_throw-eq_ok e (some a) f s h = (a, refl, h)

  -- A property of the state after a handler, by the way that the handler takes.
  pub or_throw-ends :
      {A B : Type 0} (P : S → Type 0) (e : E) (o : Option A) (f : A → Action S E B) (s : S)
      → P s
      → ((a : A) → o ≡ some a → P (f a s).1)
      → P ((or_throw e o >>= f) s).1
  or_throw-ends P e none f s h k = h
  or_throw-ends P e (some a) f s h k = k a refl

  pub throw_if-ends :
      {B : Type 0} (P : S → Type 0) (c : Bool) (e : E) (m : Action S E B) (s : S)
      → P s
      → (c ≡ false → P (m s).1)
      → P ((throw_if c e >> m) s).1
  throw_if-ends P true e m s h k = h
  throw_if-ends P false e m s h k = k refl

  -- A handler that ends with a value that it already has.
  state_of-then_pure :
      {A B : Type 0} (out : Result E A × S) (b : B)
      → (elim out.0 as (λ _. Result E B × S) [ ok a ↦ (ok b, out.1) | err e ↦ (err e, out.1) ]).1
        ≡ out.1
  state_of-then_pure (ok a, s) b = refl
  state_of-then_pure (err e, s) b = refl

  pub >>-pure : {A B : Type 0} (m : Action S E A) (b : B) (s : S) → ((m >> pure b) s).1 ≡ (m s).1
  >>-pure m b s = state_of-then_pure (m s) b

  ends-of_reading :
      {A B : Type 0} (P : S → Type 0) (out : Result E A × S) (f : A → Action S E B) (s : S)
      → out.1 ≡ s
      → P s
      → ((a : A) → out.0 ≡ ok a → P (f a s).1)
      → P (elim out.0 as (λ _. Result E B × S) [ ok a ↦ f a out.1 | err e ↦ (err e, out.1) ]).1
  ends-of_reading P (ok a, s') f s e h k = subst (λ s. P (f a s).1) (sym e) (k a refl)
  ends-of_reading P (err x, s') f s e h k = subst P (sym e) h

  -- A step that only reads the state.
  pub reading-ends :
      {A B : Type 0} (P : S → Type 0) (m : Action S E A) (f : A → Action S E B) (s : S)
      → (m s).1 ≡ s
      → P s
      → ((a : A) → (m s).0 ≡ ok a → P (f a s).1)
      → P ((m >>= f) s).1
  reading-ends P m f s e h k = ends-of_reading P (m s) f s e h k

  pub pair_eq :
      {A : Type 0} (out : Result E A × S) {r : Result E A} {s : S}
      → out.0 ≡ r
      → out.1 ≡ s
      → out ≡ (r, s)
  pair_eq out e e' = λ i. (e i, e' i)

  out-of_reading :
      {A B : Type 0} (P : Result E B × S → Type 0) (out : Result E A × S) (f : A → Action S E B)
      (s : S)
      → out.1 ≡ s
      → ((x : E) → out.0 ≡ err x → P (err x, s))
      → ((a : A) → out.0 ≡ ok a → P (f a s))
      → P (elim out.0 as (λ _. Result E B × S) [ ok a ↦ f a out.1 | err e ↦ (err e, out.1) ])
  out-of_reading P (ok a, s') f s e h k = subst (λ s. P (f a s)) (sym e) (k a refl)
  out-of_reading {B = B} P (err x, s') f s e h k =
      let r : Result E B = err x in subst (λ (s : S). P (r, s)) (sym e) (h x refl)

  -- The same of the whole outcome.
  pub reading-gives :
      {A B : Type 0} (P : Result E B × S → Type 0) (m : Action S E A) (f : A → Action S E B) (s : S)
      → (m s).1 ≡ s
      → ((x : E) → (m s).0 ≡ err x → P (err x, s))
      → ((a : A) → (m s).0 ≡ ok a → P (f a s))
      → P ((m >>= f) s)
  reading-gives P m f s e h k = out-of_reading P (m s) f s e h k

  pub throw_if-gives :
      {B : Type 0} (P : Result E B × S → Type 0) (c : Bool) (e : E) (m : Action S E B) (s : S)
      → P (err e, s)
      → P (m s)
      → P ((throw_if c e >> m) s)
  throw_if-gives P true e m s h k = h
  throw_if-gives P false e m s h k = k
