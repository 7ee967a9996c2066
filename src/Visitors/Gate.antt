-- ===== src/Visitors/Gate.antt =====
-- Who is let in by a scan, and what becomes of a visitor whose pass runs out inside.
use tomafix_backend.Prelude.{
  ℕ, ◌≤◌, ◌≡◌, refl, ◌∙◌, Bool, true, false, not, Option, none, some, Text, ◌==◌, nat_eq, ltb, ok,
  err, ◌>>◌, pure, Action, Bool-cases, inl, inr, ◌↔◌, ◌⊎◌, update_first, if◌then◌else◌, arith,
  throw, throw_if, ap, List, find, find-update_first, find_holds, ◌<◌,
}
use tomafix_backend.Billing.Plans.{TemplateType}
use tomafix_backend.Visitors.Tables.{
  VisitorStatus, visitor_status_eq, Visitor, Message, Store, Error,
}
use tomafix_backend.Visitors.Access.{
  visitors_of, with_visitors, send, or_null, find_user, update_visitor, has_token,
}
use tomafix_backend.Visitors.Scan.{
  Passage, admitted, released, lapsed, check_in, check_out, is_early, is_late, notify_inviter,
  pass_through, scan_pass,
}
use tomafix_backend.Visitors.Lifecycle.{
  Step, come, go, lapse, edit, extend, cancel, Steps, here, next,
}

-- The time of a pass, without the tests: open from its first moment to its last.
abbrev pub Since : ℕ → Option ℕ → Type 0
Since now none = Unit
Since now (some from) = from ≤ now

abbrev pub Until : ℕ → Option ℕ → Type 0
Until now none = Unit
Until now (some end) = now ≤ end

early_iff :
    (now : ℕ) (from : Option ℕ)
    → (elim from [ none ↦ false | some from ↦ ltb now from ] ≡ false) ↔ Since now from
early_iff now none = (λ _. tt, λ _. refl)
early_iff now (some from) = (λ h. ground (arith, h), λ h. ground (arith, h))

late_iff :
    (now : ℕ) (end : Option ℕ)
    → (elim end [ none ↦ false | some end ↦ ltb end now ] ≡ false) ↔ Until now end
late_iff now none = (λ _. tt, λ _. refl)
late_iff now (some end) = (λ h. ground (arith, h), λ h. ground (arith, h))

told-ok :
    (message : Text → Visitor → Message) (v : Visitor) (x : Passage) (s : Store)
    → ((notify_inviter message v >> pure x) s).0 ≡ ok x
told-ok message v x s =
    go_on (or_null (elim (find_user v.invited_by_user_id s) [ none ↦ none | some u ↦ u.email ]))
  where
    go_on :
        (o : Option Text)
        → ((elim o as (λ _. Action Store Error (Unit {0})) [
          | none ↦ pure tt
          | some address ↦ send (message address v)
        ]
              >> pure x)
            s).0
          ≡ ok x
    go_on none = refl
    go_on (some address) = refl

-- A pass that has ended stays so, and says no more of who left.
Ended : VisitorStatus → Type 0
Ended st = (st ≡ VisitorStatus.expired) ⊎ (st ≡ VisitorStatus.cancelled)

Ended-Step :
    (v w : Visitor)
    → Step v w
    → Ended v.status
    → Ended w.status × (w.checked_out_at ≡ v.checked_out_at)
unfolding Ended
Ended-Step v w (come now name h e) (inl x) = absurd (cc (h, x))
Ended-Step v w (come now name h e) (inr x) = absurd (cc (h, x))
Ended-Step v w (go now name h e) (inl x) = absurd (cc (h, x))
Ended-Step v w (go now name h e) (inr x) = absurd (cc (h, x))
Ended-Step v w (lapse now end a b c d e) (inl x) = absurd (b x)
Ended-Step v w (lapse now end a b c d e) (inr x) = absurd (a x)
Ended-Step v w (edit dto h e) (inl x) = absurd (cc (h, x))
Ended-Step v w (edit dto h e) (inr x) = absurd (cc (h, x))
Ended-Step v w (extend end a b e) (inl x) = absurd (b x)
Ended-Step v w (extend end a b e) (inr x) = absurd (a x)
Ended-Step v w (cancel a e) x = (inr (ap (λ w. w.status) e), ap (λ w. w.checked_out_at) e)

Ended-Steps :
    (v w : Visitor)
    → Steps v w
    → Ended v.status
    → Ended w.status × (w.checked_out_at ≡ v.checked_out_at)
Ended-Steps v w here x = (x, refl)
Ended-Steps v w (next {v = u} h r) x =
    let (x', e) = Ended-Step v u h x in let (x'', e') = Ended-Steps u w r x' in (x'', e' ∙ e)

visitors_of-with_visitors :
    (t : TemplateType) (rows : List Visitor) (s : Store)
    → visitors_of t (with_visitors t rows s) ≡ rows
visitors_of-with_visitors TemplateType.apartment rows s = refl
visitors_of-with_visitors TemplateType.estate rows s = refl
visitors_of-with_visitors TemplateType.office rows s = refl

module _ (now : ℕ) (name : Text) (t : TemplateType) (p : Visitor → Bool) (v : Visitor)
    (s : Store) where
  Admits : VisitorStatus → Type 0
  Admits st =
      ((elim st as (λ _. Action Store Error Passage) [
        | VisitorStatus.expected ↦ check_in now name t p v
        | VisitorStatus.checked_in ↦ check_out now name t p v
        | VisitorStatus.checked_out ↦ throw Error.already_checked_out
        | VisitorStatus.cancelled ↦ throw Error.cannot_process
        | VisitorStatus.expired ↦ throw Error.cannot_process
      ]
          s).0
        ≡ ok (Passage.came (admitted now name v)))
      ↔ (st ≡ VisitorStatus.expected)

  admits_lem : (st : VisitorStatus) → Admits st
  unfolding Admits
  admits_lem VisitorStatus.expected = (
    λ _. refl,
    λ _.
        told-ok Message.checked_in_email (admitted now name v) (Passage.came (admitted now name v))
          _,
  )
  admits_lem VisitorStatus.checked_in = (
    λ h. absurd (
        cc (
          h,
          told-ok Message.checked_out_email (released now name v)
              (Passage.went (released now name v))
              (with_visitors t (update_first p (released now name) (visitors_of t s)) s),
        )),
    λ h. cc h,
  )
  admits_lem VisitorStatus.checked_out = (λ h. cc h, λ h. cc h)
  admits_lem VisitorStatus.cancelled = (λ h. cc h, λ h. cc h)
  admits_lem VisitorStatus.expired = (λ h. cc h, λ h. cc h)

  timely :
      (ws : ℕ)
      → v.workspace_id ≡ ws
      → ((throw_if (is_early now v) Error.not_valid_yet
              >> (if is_late now v
                  then update_visitor t p lapsed >> throw Error.pass_expired
                  else pass_through now name t p v))
            s).0
          ≡ ok (Passage.came (admitted now name v))
        ↔ (v.workspace_id ≡ ws)
          × (v.status ≡ VisitorStatus.expected)
          × Since now v.valid_from
          × Until now v.valid_until
  unfolding Admits
  timely ws here_too = elim (Bool-cases (is_early now v)) [
    | inl c ↦ rw c (
      λ h. absurd (cc h),
      λ k. let c' = (early_iff now v.valid_from).1 k.2 in absurd (cc (c, c')),
    )
    | inr c ↦ rw c (elim (Bool-cases (is_late now v)) [
      | inl d ↦ rw d (
        λ h. absurd (cc h),
        λ k. let d' = (late_iff now v.valid_until).1 k.3 in absurd (cc (d, d')),
      )
      | inr d ↦ rw d (
        λ h. (
          here_too,
          (admits_lem v.status).0 h,
          (early_iff now v.valid_from).0 c,
          (late_iff now v.valid_until).0 d,
        ),
        λ k. (admits_lem v.status).1 k.1,
      )
    ])
  ]

  -- A scan of a pass lets the visitor in exactly when the pass is of this workspace and expected,
  -- and the time is not before its first moment and not after its last, where it has them.
  pub scan_pass-came :
      (ws : ℕ)
      → ((scan_pass now ws name t p v s).0 ≡ ok (Passage.came (admitted now name v)))
        ↔ (v.workspace_id ≡ ws)
          × (v.status ≡ VisitorStatus.expected)
          × Since now v.valid_from
          × Until now v.valid_until
  scan_pass-came ws = elim (Bool-cases (not (v.workspace_id == ws))) [
    | inl e ↦ (
      λ h. absurd (cc (rw e at h)),
      λ k. absurd (ground (arith, e, nat_eq.same_iff v.workspace_id ws, k.0)),
    )
    | inr e ↦ rw e (elim (Bool-cases (v.status == VisitorStatus.cancelled)) [
      | inl a ↦ rw a (
        λ h. absurd (cc h),
        λ k. absurd (cc (k.1, (visitor_status_eq.same_iff v.status VisitorStatus.cancelled).0 a)),
      )
      | inr a ↦ rw a (elim (Bool-cases (v.status == VisitorStatus.expired)) [
        | inl b ↦ rw b (
          λ h. absurd (cc h),
          λ k. absurd (cc (k.1, (visitor_status_eq.same_iff v.status VisitorStatus.expired).0 b)),
        )
        | inr b ↦ rw b (timely ws (ground (arith, e, nat_eq.same_iff v.workspace_id ws)))
      ])
    ])
  ]

-- A scan of a pass of this workspace whose visitor is checked in, at a time that is not before its
-- first moment and is after its last, is refused, and the row that was scanned is then the pass
-- marked as expired and nothing else changed of it; and after any steps of its life from there, the
-- pass is expired or cancelled and says of when the visitor left what it said before the scan.
pub scan_pass-late :
    (now ws end : ℕ) (name token : Text) (t : TemplateType) (v : Visitor) (s : Store) (w : Visitor)
    → find (has_token token) (visitors_of t s) ≡ some v
    → v.workspace_id ≡ ws
    → v.status ≡ VisitorStatus.checked_in
    → Since now v.valid_from
    → v.valid_until ≡ some end
    → end < now
    → Steps (lapsed v) w
    → let (r, s') = scan_pass now ws name t (has_token token) v s in
      (r ≡ err Error.pass_expired)
      × (find (has_token token) (visitors_of t s')
          ≡ some (record v { status = VisitorStatus.expired }))
      × ((w.status ≡ VisitorStatus.expired) ⊎ (w.status ≡ VisitorStatus.cancelled))
      × (w.checked_out_at ≡ v.checked_out_at)
unfolding Ended
scan_pass-late now ws end name token t v s w found same inside since ends over steps =
    let here_too = (nat_eq.same_iff v.workspace_id ws).1 same in
    let early = (early_iff now v.valid_from).1 since in
    let late : is_late now v ≡ true = rw ends (ground (arith, over)) in
    let (ended, left) = Ended-Steps (lapsed v) w steps (inl refl) in
    let changed = update_first (has_token token) lapsed (visitors_of t s) in
    let row =
      find-update_first (has_token token) lapsed (visitors_of t s) {x = v} found
        (find_holds (has_token token) (visitors_of t s) {x = v} found) in
    rw (here_too, inside, early, late)
      (refl, ap (find (has_token token)) (visitors_of-with_visitors t changed s) ∙ row, ended, left)
