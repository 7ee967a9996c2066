-- ===== src/Visitors/Lifecycle.antt =====
-- The life of a visitor pass, apart from the handlers that bring it about: which pass may follow
-- which, and what that says of a whole life.
use tomafix_backend.Prelude.{
  subst, ℕ, ◌≤◌, ◌<◌, ◌≡◌, ◌≢◌, refl, sym, Option, none, some, Text, arith,
}
use tomafix_backend.Visitors.Tables.{VisitorStatus, Visitor, Site}
use tomafix_backend.Visitors.Access.{VisitorDto, invited}
use tomafix_backend.Visitors.Scan.{admitted, released, lapsed}
use tomafix_backend.Visitors.Passes.{VisitorEdit, walked_in, edited, extended, cancelled_pass}

-- One change of a pass.
pub data Step (v w : Visitor) : Type 0 where
  come :
      (now : ℕ) (name : Text)
      → v.status ≡ VisitorStatus.expected
      → w ≡ admitted now name v
      → Step v w
  go :
      (now : ℕ) (name : Text)
      → v.status ≡ VisitorStatus.checked_in
      → w ≡ released now name v
      → Step v w
  lapse :
      (now end : ℕ)
      → v.status ≢ VisitorStatus.cancelled
      → v.status ≢ VisitorStatus.expired
      → v.valid_until ≡ some end
      → end < now
      → w ≡ lapsed v
      → Step v w
  edit : (dto : VisitorEdit) → v.status ≡ VisitorStatus.expected → w ≡ edited dto v → Step v w
  extend :
      (end : ℕ)
      → v.status ≢ VisitorStatus.cancelled
      → v.status ≢ VisitorStatus.expired
      → w ≡ extended end v
      → Step v w
  cancel : v.status ≢ VisitorStatus.checked_in → w ≡ cancelled_pass v → Step v w

pub data Steps : Visitor → Visitor → Type 0 where
  here : {v : Visitor} → Steps v v
  next : {u v w : Visitor} → Step u v → Steps v w → Steps u w

pub Steps-trans : {u v w : Visitor} → Steps u v → Steps v w → Steps u w
Steps-trans here s = s
Steps-trans (next h r) s = next h (Steps-trans r s)

-- A pass begins as an invitation, or with a visitor who walks in; a new row is what such a pass has
-- become.
pub data Born (v : Visitor) : Type 0 where
  by_invitation :
      (now id : ℕ) (token : Text) (site : Site) (user : Option ℕ) (inviter : Option Text)
      (dto : VisitorDto)
      → v ≡ invited now id token site user inviter dto
      → Born v
  by_walking_in :
      (now id : ℕ) (token : Text) (site : Site) (name : Text) (dto : VisitorDto)
      → v ≡ walked_in now id token site name dto
      → Born v

abbrev pub New : Visitor → Type 0
New w = (v : Visitor) × Born v × Steps v w

-- The columns of a pass agree: nobody has come on an expected pass, somebody has come and not gone
-- on a pass that is checked in, and somebody has come and gone on one that is checked out.
abbrev pub Fits : VisitorStatus → Option ℕ → Option ℕ → Type 0
Fits VisitorStatus.expected came went = (came ≡ none) × (went ≡ none)
Fits VisitorStatus.checked_in came went = ((t : ℕ) × (came ≡ some t)) × (went ≡ none)
Fits VisitorStatus.checked_out came went = ((t : ℕ) × (came ≡ some t)) × ((t : ℕ) × (went ≡ some t))
Fits VisitorStatus.cancelled came went = Unit
Fits VisitorStatus.expired came went = Unit

abbrev pub IsHonest : Visitor → Type 0
IsHonest v = Fits v.status v.checked_in_at v.checked_out_at

-- How far a pass has come; it never goes back.
abbrev pub stage : VisitorStatus → ℕ
stage VisitorStatus.expected = 0
stage VisitorStatus.checked_in = 1
stage VisitorStatus.checked_out = 2
stage VisitorStatus.expired = 3
stage VisitorStatus.cancelled = 4

-- A time that was written stands.
abbrev pub Stands : Option ℕ → Option ℕ → Type 0
Stands none after = Unit
Stands (some t) after = after ≡ some t

Stands-refl : (o : Option ℕ) → Stands o o
Stands-refl none = tt
Stands-refl (some t) = refl

Stands-trans : (a b c : Option ℕ) → Stands a b → Stands b c → Stands a c
Stands-trans none b c h k = tt
Stands-trans (some t) b c h k = subst (λ o. Stands o c) h k

-- The pass does not go back, and an admission stands.
abbrev pub Keeps : Visitor → Visitor → Type 0
Keeps v w = (stage v.status ≤ stage w.status) × Stands v.checked_in_at w.checked_in_at

Sound : Visitor → Visitor → Type 0
Sound v w = IsHonest v → IsHonest w × Keeps v w

-- The three columns, apart from the pass.
module _ (now : ℕ) where
  admission :
      (came went : Option ℕ) (st : VisitorStatus)
      → st ≡ VisitorStatus.expected
      → Fits st came went
      → Fits VisitorStatus.checked_in (some now) went × ((stage st ≤ 1) × Stands came (some now))
  admission none went VisitorStatus.expected h (_, gone) = (((now, refl), gone), (omega arith, tt))
  admission (some t) went VisitorStatus.expected h (missing, _) = absurd (cc missing)
  admission came went VisitorStatus.checked_in h f = absurd (cc h)
  admission came went VisitorStatus.checked_out h f = absurd (cc h)
  admission came went VisitorStatus.cancelled h f = absurd (cc h)
  admission came went VisitorStatus.expired h f = absurd (cc h)

  leaving :
      (came went : Option ℕ) (st : VisitorStatus)
      → st ≡ VisitorStatus.checked_in
      → Fits st came went
      → Fits VisitorStatus.checked_out came (some now) × (stage st ≤ 2)
  leaving came went VisitorStatus.checked_in h (here_now, _) =
      ((here_now, (now, refl)), omega arith)
  leaving came went VisitorStatus.expected h f = absurd (cc h)
  leaving came went VisitorStatus.checked_out h f = absurd (cc h)
  leaving came went VisitorStatus.cancelled h f = absurd (cc h)
  leaving came went VisitorStatus.expired h f = absurd (cc h)

stage_bound : (st : VisitorStatus) → stage st ≤ 4
stage_bound st = ground arith

stage_open : (st : VisitorStatus) → st ≢ VisitorStatus.cancelled → stage st ≤ 3
stage_open st h = ground arith

Step-Sound : (v w : Visitor) → Step v w → Sound v w
unfolding Sound
Step-Sound v w (come now name h e) honest =
    subst (λ w. IsHonest w × Keeps v w) (sym e)
      (admission now v.checked_in_at v.checked_out_at v.status h honest)
Step-Sound v w (go now name h e) honest =
    let (fits, order) = leaving now v.checked_in_at v.checked_out_at v.status h honest in
    subst (λ w. IsHonest w × Keeps v w) (sym e) (fits, (order, Stands-refl v.checked_in_at))
Step-Sound v w (lapse now end a b c d e) honest =
    subst (λ w. IsHonest w × Keeps v w) (sym e)
      (tt, (stage_open v.status a, Stands-refl v.checked_in_at))
Step-Sound v w (edit dto h e) honest =
    subst (λ w. IsHonest w × Keeps v w) (sym e) (honest, (omega arith, Stands-refl v.checked_in_at))
Step-Sound v w (extend end a b e) honest =
    subst (λ w. IsHonest w × Keeps v w) (sym e) (honest, (omega arith, Stands-refl v.checked_in_at))
Step-Sound v w (cancel a e) honest =
    subst (λ w. IsHonest w × Keeps v w) (sym e)
      (tt, (stage_bound v.status, Stands-refl v.checked_in_at))

-- If the times of a pass agree with its status, then after any number of steps of its life they do
-- so still, the pass is at no earlier stage than before, and a time of entry that was written is
-- the same: a pass lets its visitor in at most once.
pub Steps-Sound : (v w : Visitor) → Steps v w → IsHonest v → IsHonest w × Keeps v w
unfolding Sound
Steps-Sound v w here honest = (honest, (omega arith, Stands-refl v.checked_in_at))
Steps-Sound v w (next {v = u} h r) honest =
    let (honest', (order, stands)) = Step-Sound v u h honest in
    let (honest'', (order', stands')) = Steps-Sound u w r honest' in
    (
      honest'',
      (omega (arith, order, order'), Stands-trans v.checked_in_at _ w.checked_in_at stands stands'),
    )

Born-IsHonest : (v : Visitor) → Born v → IsHonest v
Born-IsHonest v (by_invitation now id token site user inviter dto e) =
    subst IsHonest (sym e) (refl, refl)
Born-IsHonest v (by_walking_in now id token site name dto e) =
    subst IsHonest (sym e) ((now, refl), refl)

pub New-IsHonest : (v : Visitor) → New v → IsHonest v
New-IsHonest v (u, born, steps) = (Steps-Sound u v steps (Born-IsHonest u born)).0
