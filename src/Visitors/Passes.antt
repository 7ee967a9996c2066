-- ===== src/Visitors/Passes.antt =====
-- visitors/visitors.service.ts: making, changing, cancelling and counting passes. The time of a
-- call (`now`) and what the database generates (`id`, `token`) are arguments.
use tomafix_backend.Prelude.{
  leb, ℕ, ◌+◌, ◌*◌, Bool, false, not, ◌&&◌, ◌||◌, List, Option, none, some, Text, codes, ◌==◌,
  nat_eq, list_eq, if◌then◌else◌, or_else, find, length, filter_rows, ok, Action, ◌>>=◌, ◌>>◌, pure,
  gets, throw_if, or_throw,
}
use tomafix_backend.Billing.Plans.{TemplateType}
use tomafix_backend.Billing.Store.Enums.{MemberRole, role_eq}
use tomafix_backend.Visitors.Tables.{
  VisitorStatus, visitor_status_eq, Visitor, Site, Message, Store, Error,
}
use tomafix_backend.Visitors.Access.{
  get_workspace, visitors_of, is_visitor, has_token, update_visitor, create_visitor_row, send,
  or_null, label_of, find_user, guard_name, VisitorDto, invited, send_to, is_admin, on_visitor,
}

abbrev pub invite : Bool → ℕ → ℕ → Text → Option ℕ → VisitorDto → Site → Action Store Error Visitor
invite sms now id token user_id dto site = do
  inviter ← gets (λ s. label_of (find_user user_id s))
  let v = invited now id token site user_id inviter dto
  create_visitor_row site.template_type v
  send_to (λ to. Message.invite_email to v) v.email
  send_to (λ to. Message.invite_sms to v) (if sms then v.phone else none)
  pure v

-- `createVisitor`; `sms` is whether `NOTIFICATION_SMS_ENABLED` is `true`.
unfoldable pub create_visitor :
    Bool → ℕ → ℕ → Text → ℕ → Option ℕ → VisitorDto → Action Store Error Visitor
create_visitor sms now id token workspace_id user_id dto =
    get_workspace workspace_id >>= invite sms now id token user_id dto

-- `getVisitorByToken`
unfoldable pub get_visitor_by_token : Text → Action Store Error Visitor
get_visitor_by_token token s = elim (find (has_token token) s.apartment_visitors) [
  | some v ↦ (ok v, s)
  | none ↦ elim (find (has_token token) s.estate_visitors) [
    | some v ↦ (ok v, s)
    | none ↦ or_throw Error.no_such_pass (find (has_token token) s.office_visitors) s
  ]
]

-- A field of a partial update: missing, or the value that is written.
pub record VisitorEdit : Type 0 where
  pub purpose : Option (Option Text)
  pub phone : Option (Option Text)
  pub notes : Option (Option Text)
  pub valid_until : Option (Option ℕ)

-- `…(dto.x !== undefined && { x: dto.x || null })`
abbrev pub edited_text : Option (Option Text) → Option Text → Option Text
edited_text none old = old
edited_text (some new) old = or_null new

abbrev pub edited : VisitorEdit → Visitor → Visitor
edited dto v = record v {
  purpose = edited_text dto.purpose v.purpose;
  phone = edited_text dto.phone v.phone;
  notes = edited_text dto.notes v.notes;
  valid_until = or_else dto.valid_until v.valid_until;
}

abbrev pub is_inviter : ℕ → Visitor → Bool
is_inviter requester v = elim v.invited_by_user_id [ none ↦ false | some id ↦ id == requester ]

abbrev pub update_found :
    ℕ → ℕ → ℕ → MemberRole → VisitorEdit → TemplateType → Visitor → Action Store Error (Unit {0})
update_found workspace_id id requester role dto t v = do
  throw_if (not (is_admin role) && not (is_inviter requester v)) Error.not_your_pass
  throw_if (not (v.status == VisitorStatus.expected)) Error.not_expected
  update_visitor t (is_visitor workspace_id id) (edited dto)
  send_to (λ to. Message.updated_email to (edited dto v)) v.email

-- `updateVisitor`
unfoldable pub update_pass : ℕ → ℕ → ℕ → MemberRole → VisitorEdit → Action Store Error (Unit {0})
update_pass workspace_id id requester role dto =
    on_visitor workspace_id id (update_found workspace_id id requester role dto)

abbrev pub cancelled_pass : Visitor → Visitor
cancelled_pass v = record v { status = VisitorStatus.cancelled }

abbrev pub cancel_found : ℕ → ℕ → TemplateType → Visitor → Action Store Error (Unit {0})
cancel_found workspace_id id t v = do
  throw_if (v.status == VisitorStatus.checked_in) Error.checked_in_now
  update_visitor t (is_visitor workspace_id id) cancelled_pass

-- `cancelVisitor`
unfoldable pub cancel_visitor : ℕ → ℕ → Action Store Error (Unit {0})
cancel_visitor workspace_id id = on_visitor workspace_id id (cancel_found workspace_id id)

abbrev pub hour_ms : ℕ
hour_ms = 3600000

abbrev pub walked_in : ℕ → ℕ → Text → Site → Text → VisitorDto → Visitor
walked_in now id token site name dto = record (invited now id token site none none dto) {
  email = none;
  purpose = some (or_else (or_null dto.purpose) (codes "Walk-in"));
  valid_from = some now;
  valid_until = some (now + 8 * hour_ms);
  notes = none;
  status = VisitorStatus.checked_in;
  checked_in_at = some now;
  checked_in_by_name = some name;
}

abbrev pub admit_walk_in : ℕ → ℕ → Text → Option ℕ → VisitorDto → Site → Action Store Error Visitor
admit_walk_in now id token scanner dto site = do
  name ← gets (guard_name scanner)
  let v = walked_in now id token site name dto
  create_visitor_row site.template_type v
  pure v

-- `createWalkIn`
unfoldable pub create_walk_in :
    ℕ → ℕ → Text → ℕ → Option ℕ → VisitorDto → Action Store Error Visitor
create_walk_in now id token workspace_id scanner dto =
    get_workspace workspace_id >>= admit_walk_in now id token scanner dto

abbrev pub extended : ℕ → Visitor → Visitor
extended end v = record v { valid_until = some end }

abbrev pub extend_found : ℕ → ℕ → Option ℕ → TemplateType → Visitor → Action Store Error (Unit {0})
extend_found workspace_id id end t v = do
  throw_if (v.status == VisitorStatus.cancelled || v.status == VisitorStatus.expired)
      Error.cannot_extend
  until ← or_throw Error.invalid_date end
  update_visitor t (is_visitor workspace_id id) (extended until)

-- `extendVisitor`; `end` is the date that was given, unless it is not one.
unfoldable pub extend_visitor : ℕ → ℕ → Option ℕ → Action Store Error (Unit {0})
extend_visitor workspace_id id end = on_visitor workspace_id id (extend_found workspace_id id end)

-- `is_sent` is whether `sendVisitorInviteEmail`, which is awaited, resolves or rejects.
abbrev pub resend_found : Bool → TemplateType → Visitor → Action Store Error (Unit {0})
resend_found is_sent t v = do
  to ← or_throw Error.no_email (or_null v.email)
  throw_if (not is_sent) Error.email_not_sent
  send (Message.invite_email to v)

-- `resendPass`
unfoldable pub resend_pass : Bool → ℕ → ℕ → Action Store Error (Unit {0})
resend_pass is_sent workspace_id id = on_visitor workspace_id id (resend_found is_sent)

pub record Stats : Type 0 where
  pub expected : ℕ
  pub checked_in : ℕ
  pub checked_out : ℕ
  pub today_total : ℕ

-- `count({ where: { workspaceId, … } })`
abbrev pub count_visitors : (Visitor → Bool) → ℕ → List Visitor → ℕ
count_visitors p id rows = length (filter_rows (λ v. v.workspace_id == id && p v) rows)

-- `getStats`; `midnight` is the start of the day.
unfoldable pub get_stats : ℕ → ℕ → Action Store Error Stats
get_stats midnight id = do
  site ← get_workspace id
  rows ← gets (visitors_of site.template_type)
  pure (record {
    expected = count_visitors (λ v. v.status == VisitorStatus.expected) id rows;
    checked_in = count_visitors (λ v. v.status == VisitorStatus.checked_in) id rows;
    checked_out = count_visitors (λ v. v.status == VisitorStatus.checked_out) id rows;
    today_total = count_visitors (λ v. leb midnight v.created_at) id rows;
  })
