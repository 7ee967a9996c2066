-- ===== src/Visitors/Scan.antt =====
-- visitors/visitors.service.ts: who comes in and who goes, by a scan or by hand. `now` is the time
-- of the call.
use tomafix_backend.Prelude.{
  ℕ, Bool, false, not, ◌||◌, Option, none, some, Text, ◌==◌, nat_eq, list_eq, if◌then◌else◌, ltb,
  find, Action, ◌>>=◌, ◌>>◌, pure, throw, gets, throw_if, or_throw,
}
use tomafix_backend.Billing.Plans.{TemplateType}
use tomafix_backend.Billing.Store.Enums.{MemberRole, role_eq}
use tomafix_backend.Visitors.Tables.{
  VisitorStatus, visitor_status_eq, Visitor, Site, Message, Store, Error,
}
use tomafix_backend.Visitors.Access.{
  get_workspace, visitors_of, is_visitor, has_token, update_visitor, find_user, guard_name, send_to,
  is_admin, on_visitor,
}
use tomafix_backend.Visitors.Token.{token_of}

-- What a scan may do with a pass that is valid now.
pub data Passage : Type 0 where
  came went : Visitor → Passage

abbrev pub admitted : ℕ → Text → Visitor → Visitor
admitted now name v = record v {
  status = VisitorStatus.checked_in;
  checked_in_at = some now;
  checked_in_by_name = some name;
}

abbrev pub released : ℕ → Text → Visitor → Visitor
released now name v = record v {
  status = VisitorStatus.checked_out;
  checked_out_at = some now;
  checked_out_by_name = some name;
}

abbrev pub lapsed : Visitor → Visitor
lapsed v = record v { status = VisitorStatus.expired }

-- `notifyInviterCheckedIn` and `notifyInviterCheckedOut`: to the inviter, if there is one.
abbrev pub notify_inviter : (Text → Visitor → Message) → Visitor → Action Store Error (Unit {0})
notify_inviter message v = do
  inviter ← gets (find_user v.invited_by_user_id)
  send_to (λ to. message to v) (elim inviter [ none ↦ none | some u ↦ u.email ])

abbrev pub check_in :
    ℕ → Text → TemplateType → (Visitor → Bool) → Visitor → Action Store Error Passage
check_in now name t p v = do
  update_visitor t p (admitted now name)
  notify_inviter Message.checked_in_email (admitted now name v)
  pure (came (admitted now name v))

abbrev pub check_out :
    ℕ → Text → TemplateType → (Visitor → Bool) → Visitor → Action Store Error Passage
check_out now name t p v = do
  update_visitor t p (released now name)
  notify_inviter Message.checked_out_email (released now name v)
  pure (went (released now name v))

-- `validFrom && now < validFrom`, and `validUntil && now > validUntil`
abbrev pub is_early : ℕ → Visitor → Bool
is_early now v = elim v.valid_from [ none ↦ false | some from ↦ ltb now from ]

abbrev pub is_late : ℕ → Visitor → Bool
is_late now v = elim v.valid_until [ none ↦ false | some end ↦ ltb end now ]

abbrev pub pass_through :
    ℕ → Text → TemplateType → (Visitor → Bool) → Visitor → Action Store Error Passage
pass_through now name t p v = elim v.status [
  | VisitorStatus.expected ↦ check_in now name t p v
  | VisitorStatus.checked_in ↦ check_out now name t p v
  | VisitorStatus.checked_out ↦ throw Error.already_checked_out
  | VisitorStatus.cancelled ↦ throw Error.cannot_process
  | VisitorStatus.expired ↦ throw Error.cannot_process
]

-- The checks of a scan, once the pass is found.
abbrev pub scan_pass :
    ℕ → ℕ → Text → TemplateType → (Visitor → Bool) → Visitor → Action Store Error Passage
scan_pass now workspace_id name t p v = do
  throw_if (not (v.workspace_id == workspace_id)) Error.wrong_property
  throw_if (v.status == VisitorStatus.cancelled) Error.pass_cancelled
  throw_if (v.status == VisitorStatus.expired) Error.pass_expired
  throw_if (is_early now v) Error.not_valid_yet
  if is_late now v
      then update_visitor t p lapsed >> throw Error.pass_expired
      else pass_through now name t p v

abbrev pub scan_at : ℕ → ℕ → Option ℕ → Text → Site → Action Store Error Passage
scan_at now workspace_id scanner raw site = do
  name ← gets (guard_name scanner)
  found ← gets (λ s. find (has_token (token_of raw)) (visitors_of site.template_type s))
  v ← or_throw Error.no_such_pass found
  scan_pass now workspace_id name site.template_type (has_token (token_of raw)) v

-- `scanVisitor`
unfoldable pub scan_visitor : ℕ → ℕ → Option ℕ → Text → Action Store Error Passage
scan_visitor now workspace_id scanner raw =
    get_workspace workspace_id >>= scan_at now workspace_id scanner raw

abbrev pub come_by_hand : ℕ → ℕ → ℕ → Option ℕ → TemplateType → Visitor → Action Store Error Passage
come_by_hand now workspace_id id user t v = do
  throw_if (not (v.status == VisitorStatus.expected)) Error.not_expected
  name ← gets (guard_name user)
  check_in now name t (is_visitor workspace_id id) v

-- `manualCheckIn`
unfoldable pub manual_check_in : ℕ → ℕ → ℕ → Option ℕ → MemberRole → Action Store Error Passage
manual_check_in now workspace_id id user role = do
  throw_if (not (is_admin role || role == MemberRole.guard)) Error.not_allowed
  on_visitor workspace_id id (come_by_hand now workspace_id id user)

abbrev pub go_by_hand : ℕ → ℕ → ℕ → Option ℕ → TemplateType → Visitor → Action Store Error Passage
go_by_hand now workspace_id id user t v = do
  throw_if (not (v.status == VisitorStatus.checked_in)) Error.not_checked_in
  name ← gets (guard_name user)
  check_out now name t (is_visitor workspace_id id) v

-- `manualCheckOut`
unfoldable pub manual_check_out : ℕ → ℕ → ℕ → Option ℕ → Action Store Error Passage
manual_check_out now workspace_id id user =
    on_visitor workspace_id id (go_by_hand now workspace_id id user)
