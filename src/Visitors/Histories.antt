-- ===== src/Visitors/Histories.antt =====
-- What may happen to the passes of all the workspaces, over any sequence of calls.
use tomafix_backend.Prelude.{
  ℕ, refl, Bool, List, [], ◌∷◌, ◌++◌, Option, none, Text, nat_eq, list_eq, ◌>>◌, pure,
  or_throw-ends, if◌then◌else◌, All,
}
use tomafix_backend.Billing.Plans.{TemplateType}
use tomafix_backend.Billing.Store.Enums.{role_eq}
use tomafix_backend.Visitors.Tables.{visitor_status_eq, Visitor, Message, Store, Error}
use tomafix_backend.Visitors.Access.{find_site, visitors_of, with_visitors, send_to}
use tomafix_backend.Visitors.Passes.{
  create_visitor, invite, admit_walk_in, walked_in, create_walk_in,
}
use tomafix_backend.Visitors.Lifecycle.{Steps}
use tomafix_backend.Visitors.Calls.{Call, after, after_all}
use tomafix_backend.Visitors.Refines.{Refined, Refined-refl, Refined-trans, created-Refined}
use tomafix_backend.Visitors.Access.{find_user, guard_name, VisitorDto, label_of, invited}
use tomafix_backend.Visitors.Lifecycle.{
  New, New-IsHonest, Steps-Sound, IsHonest, by_invitation, by_walking_in,
}
use tomafix_backend.Prelude.{Evolves-All}
use tomafix_backend.Visitors.Refines.{created-Refined, send_to_then-Refined}
use tomafix_backend.Visitors.Runs.{
  scan_visitor-Refined, manual_check_in-Refined, manual_check_out-Refined, update_pass-Refined,
  cancel_visitor-Refined, extend_visitor-Refined, resend_pass-Refined,
}

create_visitor-Refined :
    (sms : Bool) (now id : ℕ) (token : Text) (ws : ℕ) (user : Option ℕ) (dto : VisitorDto)
    (s : Store)
    → Refined s (create_visitor sms now id token ws user dto s).1
unfolding create_visitor
create_visitor-Refined sms now id token ws user dto s =
    or_throw-ends (Refined s) Error.workspace_not_found (find_site ws s)
      (invite sms now id token user dto) s (Refined-refl s)
      λ site _.
        let v = invited now id token site user (label_of (find_user user s)) dto in
        let t = site.template_type in
        let created = with_visitors t (visitors_of t s ++ v ∷ []) s in
        told v created (if sms then v.phone else none) (
          created-Refined s t v
            (by_invitation now id token site user (label_of (find_user user s)) dto refl))
  where
    told :
        (v : Visitor) (s' : Store) (phone : Option Text)
        → Refined s s'
        → Refined s
            ((send_to (λ to. Message.invite_email to v) v.email
                >> (send_to (λ to. Message.invite_sms to v) phone >> pure v))
              s').1
    told v s' phone h =
        send_to_then-Refined s s' (λ to. Message.invite_email to v) v.email
          (send_to (λ to. Message.invite_sms to v) phone >> pure v) h
          λ s'' h'.
            send_to_then-Refined s s'' (λ to. Message.invite_sms to v) phone (pure v) h' λ t g. g

create_walk_in-Refined :
    (now id : ℕ) (token : Text) (ws : ℕ) (scanner : Option ℕ) (dto : VisitorDto) (s : Store)
    → Refined s (create_walk_in now id token ws scanner dto s).1
unfolding create_walk_in
create_walk_in-Refined now id token ws scanner dto s =
    or_throw-ends (Refined s) Error.workspace_not_found (find_site ws s)
      (admit_walk_in now id token scanner dto) s (Refined-refl s)
      λ site _.
        created-Refined s site.template_type
          (walked_in now id token site (guard_name scanner s) dto)
          (by_walking_in now id token site (guard_name scanner s) dto refl)

-- Every call, whatever its arguments and whether it returns or throws, leaves each old pass where
-- steps of the life of a pass lead from it, and puts only such lives behind the old rows.
after-Refined : (c : Call) (s : Store) → Refined s (after c s)
after-Refined (Call.create sms now id token ws user dto) s =
    create_visitor-Refined sms now id token ws user dto s
after-Refined (Call.scan now ws scanner raw) s = scan_visitor-Refined now ws scanner raw s
after-Refined (Call.update ws id requester role dto) s =
    update_pass-Refined ws id s requester role dto
after-Refined (Call.cancel ws id) s = cancel_visitor-Refined ws id s
after-Refined (Call.walk_in now id token ws scanner dto) s =
    create_walk_in-Refined now id token ws scanner dto s
after-Refined (Call.extend ws id end) s = extend_visitor-Refined ws id s end
after-Refined (Call.check_in_by_hand now ws id user role) s =
    manual_check_in-Refined now ws id user s role
after-Refined (Call.check_out_by_hand now ws id user) s = manual_check_out-Refined now ws id user s
after-Refined (Call.resend is_sent ws id) s = resend_pass-Refined ws id s is_sent

-- For every sequence of the calls that make, scan, change, cancel, extend or resend a pass or let
-- a visitor in or out by hand, whatever their arguments and whether they return or throw: each old
-- row of each of the three tables stands in its place as steps of the life of a pass leave it, and
-- every row behind the old ones is such a life that an invitation or a walk-in began.
pub after_all-Refined : (cs : List Call) (s : Store) → Refined s (after_all cs s)
after_all-Refined [] s = Refined-refl s
after_all-Refined (c ∷ cs) s =
    Refined-trans s (after c s) (after_all cs (after c s)) (after-Refined c s)
      (after_all-Refined cs (after c s))

-- Over every such sequence of calls, if every pass of a table has times that agree with its status
-- (no time while it is expected, only the time of entry while it is checked in, both once it is
-- checked out), then so has every pass of the table afterwards, the new ones included.
pub after_all-IsHonest :
    (cs : List Call) (s : Store) (t : TemplateType)
    → All IsHonest (visitors_of t s)
    → All IsHonest (visitors_of t (after_all cs s))
after_all-IsHonest cs s t h =
    Evolves-All Steps New IsHonest (λ v w honest steps. (Steps-Sound v w steps honest).0)
      New-IsHonest (visitors_of t s) (visitors_of t (after_all cs s)) (after_all-Refined cs s t) h
