-- ===== src/Visitors/Calls.antt =====
-- The calls of visitors/visitors.service.ts that write, as one type, and a sequence of them.
use tomafix_backend.Prelude.{ℕ, Bool, List, [], ◌∷◌, Option, Text}
use tomafix_backend.Billing.Store.Enums.{MemberRole}
use tomafix_backend.Visitors.Tables.{Store}
use tomafix_backend.Visitors.Access.{VisitorDto}
use tomafix_backend.Visitors.Scan.{scan_visitor, manual_check_in, manual_check_out}
use tomafix_backend.Visitors.Passes.{
  create_visitor, VisitorEdit, update_pass, cancel_visitor, create_walk_in, extend_visitor,
  resend_pass,
}

pub data Call : Type 0 where
  create : Bool → ℕ → ℕ → Text → ℕ → Option ℕ → VisitorDto → Call
  scan : ℕ → ℕ → Option ℕ → Text → Call
  update : ℕ → ℕ → ℕ → MemberRole → VisitorEdit → Call
  cancel : ℕ → ℕ → Call
  walk_in : ℕ → ℕ → Text → ℕ → Option ℕ → VisitorDto → Call
  extend : ℕ → ℕ → Option ℕ → Call
  check_in_by_hand : ℕ → ℕ → ℕ → Option ℕ → MemberRole → Call
  check_out_by_hand : ℕ → ℕ → ℕ → Option ℕ → Call
  resend : Bool → ℕ → ℕ → Call

-- The store after a call, whether it returned or threw.
abbrev pub after : Call → Store → Store
after (Call.create sms now id token ws user dto) s =
    (create_visitor sms now id token ws user dto s).1
after (Call.scan now ws scanner raw) s = (scan_visitor now ws scanner raw s).1
after (Call.update ws id requester role dto) s = (update_pass ws id requester role dto s).1
after (Call.cancel ws id) s = (cancel_visitor ws id s).1
after (Call.walk_in now id token ws scanner dto) s =
    (create_walk_in now id token ws scanner dto s).1
after (Call.extend ws id end) s = (extend_visitor ws id end s).1
after (Call.check_in_by_hand now ws id user role) s = (manual_check_in now ws id user role s).1
after (Call.check_out_by_hand now ws id user) s = (manual_check_out now ws id user s).1
after (Call.resend is_sent ws id) s = (resend_pass is_sent ws id s).1

abbrev pub after_all : List Call → Store → Store
after_all [] s = s
after_all (c ∷ cs) s = after_all cs (after c s)
