-- ===== src/Visitors/Runs.antt =====
-- Each handler of visitors/visitors.service.ts, on each of its ways, against the life of a pass.
use tomafix_backend.Prelude.{
  ℕ, ◌≡◌, ◌≢◌, refl, Bool, true, false, not, ◌&&◌, ◌||◌, Option, none, some, Text, ◌==◌, nat_eq,
  list_eq, Action, ◌>>=◌, ◌>>◌, pure, throw, or_throw, throw_if, or_throw-ends, throw_if-ends, find,
  update_first, if◌then◌else◌, >>-pure, ltb, ◌<◌, subst, sym, Bool-cases, inl, inr, arith,
}
use tomafix_backend.Billing.Plans.{TemplateType}
use tomafix_backend.Billing.Store.Enums.{MemberRole, role_eq}
use tomafix_backend.Visitors.Tables.{
  VisitorStatus, visitor_status_eq, Visitor, Message, Store, Error,
}
use tomafix_backend.Visitors.Access.{
  find_site, visitors_of, with_visitors, is_visitor, has_token, update_visitor, send, or_null,
  send_to, on_visitor,
}
use tomafix_backend.Visitors.Scan.{
  Passage, admitted, released, lapsed, notify_inviter, check_in, check_out, is_late, is_early,
  pass_through, scan_pass, scan_at, come_by_hand, go_by_hand, scan_visitor, manual_check_in,
  manual_check_out,
}
use tomafix_backend.Visitors.Passes.{
  VisitorEdit, edited, extended, cancelled_pass, cancel_found, extend_found, resend_found,
  update_found, is_inviter, update_pass, cancel_visitor, extend_visitor, resend_pass,
}
use tomafix_backend.Visitors.Lifecycle.{come, go, lapse, edit, extend, cancel}
use tomafix_backend.Visitors.Refines.{
  Refined, Refined-refl, updated-Refined, send_to-Refined, sent-Refined, on_visitor-ends,
}
use tomafix_backend.Visitors.Access.{is_admin, find_user, guard_name}
use tomafix_backend.Visitors.Token.{token_of}

-- the inviter is told, in a store that the step has already refined
notify-Refined :
    (message : Text → Visitor → Message) (v : Visitor) (x : Passage) (s s' : Store)
    → Refined s s'
    → Refined s ((notify_inviter message v >> pure x) s').1
notify-Refined message v x s s' h =
    subst (Refined s) (sym (>>-pure (notify_inviter message v) x s')) (
      send_to-Refined s s' (λ to. message to v)
        (elim (find_user v.invited_by_user_id s') [ none ↦ none | some u ↦ u.email ]) h)

module _ (now : ℕ) (name : Text) (t : TemplateType) (p : Visitor → Bool) (v : Visitor) (s : Store)
    (found : find p (visitors_of t s) ≡ some v) where
  check_in-Refined : v.status ≡ VisitorStatus.expected → Refined s (check_in now name t p v s).1
  check_in-Refined h =
      notify-Refined Message.checked_in_email (admitted now name v)
        (Passage.came (admitted now name v)) s
        (with_visitors t (update_first p (admitted now name) (visitors_of t s)) s)
        (updated-Refined s t p (admitted now name) v found (come now name h refl))

  check_out-Refined : v.status ≡ VisitorStatus.checked_in → Refined s (check_out now name t p v s).1
  check_out-Refined h =
      notify-Refined Message.checked_out_email (released now name v)
        (Passage.went (released now name v)) s
        (with_visitors t (update_first p (released now name) (visitors_of t s)) s)
        (updated-Refined s t p (released now name) v found (go now name h refl))

-- What a test of the status tells.
is_status : (st wanted : VisitorStatus) → not (st == wanted) ≡ false → st ≡ wanted
is_status st wanted h = elim (Bool-cases (st == wanted)) [
  | inl e ↦ (visitor_status_eq.same_iff st wanted).0 e
  | inr e ↦ absurd (ground (arith, e))
]

is_not_status : (st other : VisitorStatus) → (st == other) ≡ false → st ≢ other
is_not_status st other h e = let same = (visitor_status_eq.same_iff st other).1 e in cc (h, same)

late-end :
    (now : ℕ) (until : Option ℕ)
    → elim until [ none ↦ false | some end ↦ ltb end now ] ≡ true
    → (end : ℕ) × (until ≡ some end) × (end < now)
late-end now none h = cc h
late-end now (some end) h = (end, refl, ground (arith, h))

module _ (now : ℕ) (name : Text) (t : TemplateType) (p : Visitor → Bool) (v : Visitor) (s : Store)
    (found : find p (visitors_of t s) ≡ some v) where
  pass_through-Refined : Refined s (pass_through now name t p v s).1
  pass_through-Refined = go_on v.status refl
    where
      go_on :
          (st : VisitorStatus)
          → v.status ≡ st
          → Refined s
              (elim st as (λ _. Action Store Error Passage) [
                | VisitorStatus.expected ↦ check_in now name t p v
                | VisitorStatus.checked_in ↦ check_out now name t p v
                | VisitorStatus.checked_out ↦ throw Error.already_checked_out
                | VisitorStatus.cancelled ↦ throw Error.cannot_process
                | VisitorStatus.expired ↦ throw Error.cannot_process
              ]
                s).1
      go_on VisitorStatus.expected h = check_in-Refined now name t p v s found h
      go_on VisitorStatus.checked_in h = check_out-Refined now name t p v s found h
      go_on VisitorStatus.checked_out h = Refined-refl s
      go_on VisitorStatus.cancelled h = Refined-refl s
      go_on VisitorStatus.expired h = Refined-refl s

  late_or_through-Refined :
      v.status ≢ VisitorStatus.cancelled
      → v.status ≢ VisitorStatus.expired
      → Refined s
          ((if is_late now v
              then update_visitor t p lapsed >> throw Error.pass_expired
              else pass_through now name t p v)
            s).1
  late_or_through-Refined a b = elim (Bool-cases (is_late now v)) [
    | inl late ↦
        let (end, e, past) = late-end now v.valid_until late in
        rw late (updated-Refined s t p lapsed v found (lapse now end a b e past refl))
    | inr in_time ↦ rw in_time pass_through-Refined
  ]

  scan_pass-Refined : (ws : ℕ) → Refined s (scan_pass now ws name t p v s).1
  scan_pass-Refined ws = elim (Bool-cases (not (v.workspace_id == ws))) [
    | inl e ↦ rw e (Refined-refl s)
    | inr e ↦ rw e (elim (Bool-cases (v.status == VisitorStatus.cancelled)) [
      | inl a ↦ rw a (Refined-refl s)
      | inr a ↦ rw a (elim (Bool-cases (v.status == VisitorStatus.expired)) [
        | inl b ↦ rw b (Refined-refl s)
        | inr b ↦ rw b (elim (Bool-cases (is_early now v)) [
          | inl c ↦ rw c (Refined-refl s)
          | inr c ↦ rw c (
              late_or_through-Refined (is_not_status v.status VisitorStatus.cancelled a)
                (is_not_status v.status VisitorStatus.expired b))
        ])
      ])
    ])
  ]

pub scan_visitor-Refined :
    (now ws : ℕ) (scanner : Option ℕ) (raw : Text) (s : Store)
    → Refined s (scan_visitor now ws scanner raw s).1
unfolding scan_visitor
scan_visitor-Refined now ws scanner raw s =
    or_throw-ends (Refined s) Error.workspace_not_found (find_site ws s)
      (scan_at now ws scanner raw) s (Refined-refl s)
      λ site _.
        let found = find (has_token (token_of raw)) (visitors_of site.template_type s) in
        or_throw-ends (Refined s) Error.no_such_pass found
          (scan_pass now ws (guard_name scanner s) site.template_type (has_token (token_of raw))) s
          (Refined-refl s)
          λ v e.
            scan_pass-Refined now (guard_name scanner s) site.template_type
              (has_token (token_of raw)) v s e ws

module _ (now ws id : ℕ) (user : Option ℕ) (s : Store) where
  pub manual_check_in-Refined :
      (role : MemberRole) → Refined s (manual_check_in now ws id user role s).1
  unfolding manual_check_in
  manual_check_in-Refined role =
      throw_if-ends (Refined s) (not (is_admin role || role == MemberRole.guard)) Error.not_allowed
        (on_visitor ws id (come_by_hand now ws id user)) s (Refined-refl s)
        λ _.
          on_visitor-ends (Refined s) ws id (come_by_hand now ws id user) s (Refined-refl s)
            λ t v found.
              throw_if-ends (Refined s) (not (v.status == VisitorStatus.expected))
                Error.not_expected (λ s. check_in now (guard_name user s) t (is_visitor ws id) v s)
                s (Refined-refl s)
                λ h.
                  check_in-Refined now (guard_name user s) t (is_visitor ws id) v s found
                    (is_status v.status VisitorStatus.expected h)

  pub manual_check_out-Refined : Refined s (manual_check_out now ws id user s).1
  unfolding manual_check_out
  manual_check_out-Refined =
      on_visitor-ends (Refined s) ws id (go_by_hand now ws id user) s (Refined-refl s) λ t v found.
        throw_if-ends (Refined s) (not (v.status == VisitorStatus.checked_in)) Error.not_checked_in
          (λ s. check_out now (guard_name user s) t (is_visitor ws id) v s) s (Refined-refl s)
          λ h.
            check_out-Refined now (guard_name user s) t (is_visitor ws id) v s found
              (is_status v.status VisitorStatus.checked_in h)

module _ (ws id : ℕ) (s : Store) where
  pub update_pass-Refined :
      (requester : ℕ) (role : MemberRole) (dto : VisitorEdit)
      → Refined s (update_pass ws id requester role dto s).1
  unfolding update_pass
  update_pass-Refined requester role dto =
      on_visitor-ends (Refined s) ws id (update_found ws id requester role dto) s (Refined-refl s)
        λ t v found.
          let tell = send_to (λ to. Message.updated_email to (edited dto v)) v.email in
          let write = update_visitor t (is_visitor ws id) (edited dto) >> tell in
          throw_if-ends (Refined s) (not (is_admin role) && not (is_inviter requester v))
            Error.not_your_pass
            (throw_if (not (v.status == VisitorStatus.expected)) Error.not_expected >> write) s
            (Refined-refl s)
            λ _.
              throw_if-ends (Refined s) (not (v.status == VisitorStatus.expected))
                Error.not_expected write s (Refined-refl s)
                λ h.
                  send_to-Refined s
                    (with_visitors t
                      (update_first (is_visitor ws id) (edited dto) (visitors_of t s)) s)
                    (λ to. Message.updated_email to (edited dto v)) v.email
                    (updated-Refined s t (is_visitor ws id) (edited dto) v found
                      (edit dto (is_status v.status VisitorStatus.expected h) refl))

  pub cancel_visitor-Refined : Refined s (cancel_visitor ws id s).1
  unfolding cancel_visitor
  cancel_visitor-Refined =
      on_visitor-ends (Refined s) ws id (cancel_found ws id) s (Refined-refl s) λ t v found.
        throw_if-ends (Refined s) (v.status == VisitorStatus.checked_in) Error.checked_in_now
          (update_visitor t (is_visitor ws id) cancelled_pass) s (Refined-refl s)
          λ h.
            updated-Refined s t (is_visitor ws id) cancelled_pass v found
              (cancel (is_not_status v.status VisitorStatus.checked_in h) refl)

  pub extend_visitor-Refined : (end : Option ℕ) → Refined s (extend_visitor ws id end s).1
  unfolding extend_visitor
  extend_visitor-Refined end =
      on_visitor-ends (Refined s) ws id (extend_found ws id end) s (Refined-refl s) λ t v found.
        let write = λ (until : ℕ). update_visitor t (is_visitor ws id) (extended until) in
        throw_if-ends (Refined s)
          (v.status == VisitorStatus.cancelled || v.status == VisitorStatus.expired)
          Error.cannot_extend (or_throw Error.invalid_date end >>= write) s (Refined-refl s)
          λ h. or_throw-ends (Refined s) Error.invalid_date end write s (Refined-refl s) λ until _.
            updated-Refined s t (is_visitor ws id) (extended until) v found (
              extend until (is_not_status v.status VisitorStatus.cancelled (ground (arith, h)))
                (is_not_status v.status VisitorStatus.expired (ground (arith, h))) refl)

  pub resend_pass-Refined : (is_sent : Bool) → Refined s (resend_pass is_sent ws id s).1
  unfolding resend_pass
  resend_pass-Refined is_sent =
      on_visitor-ends (Refined s) ws id (resend_found is_sent) s (Refined-refl s) λ t v found.
        or_throw-ends (Refined s) Error.no_email (or_null v.email)
          (λ to. throw_if (not is_sent) Error.email_not_sent >> send (Message.invite_email to v)) s
          (Refined-refl s)
          λ to _.
            throw_if-ends (Refined s) (not is_sent) Error.email_not_sent
              (send (Message.invite_email to v)) s (Refined-refl s)
              λ _. sent-Refined s s (Message.invite_email to v) (Refined-refl s)
