-- ===== src/Visitors/Tables.antt =====
-- The tables that visitors/visitors.service.ts reads and writes (models of prisma/schema.prisma),
-- and the messages that it sends. Ids are numbers, times are milliseconds.
use tomafix_backend.Prelude.{
  ℕ, List, Option, Text, Eq, place_beq, place_beq_iff, Lists, refl, ◌∷◌, [],
}
use tomafix_backend.Billing.Plans.{TemplateType}

pub data VisitorStatus : Type 0 where
  expected checked_in checked_out cancelled expired : VisitorStatus

abbrev pub visitor_status_place : VisitorStatus → ℕ
visitor_status_place VisitorStatus.expected = 0
visitor_status_place VisitorStatus.checked_in = 1
visitor_status_place VisitorStatus.checked_out = 2
visitor_status_place VisitorStatus.cancelled = 3
visitor_status_place VisitorStatus.expired = 4

abbrev pub visitor_statuses : List VisitorStatus
visitor_statuses =
    VisitorStatus.expected ∷ VisitorStatus.checked_in ∷ VisitorStatus.checked_out
    ∷ VisitorStatus.cancelled ∷ VisitorStatus.expired ∷ []

pub Lists-visitor_statuses : Lists visitor_status_place visitor_statuses
Lists-visitor_statuses VisitorStatus.expected = refl
Lists-visitor_statuses VisitorStatus.checked_in = refl
Lists-visitor_statuses VisitorStatus.checked_out = refl
Lists-visitor_statuses VisitorStatus.cancelled = refl
Lists-visitor_statuses VisitorStatus.expired = refl

instance abbrev pub visitor_status_eq : Eq VisitorStatus
visitor_status_eq = record {
  same_as = place_beq visitor_status_place;
  same_iff = place_beq_iff visitor_status_place visitor_statuses Lists-visitor_statuses;
}

-- Where a visitor goes: a unit, or an area of an office.
pub record Location : Type 0 where
  pub unit_id : Option Text
  pub unit_label : Option Text
  pub area_id : Option Text
  pub area_name : Option Text

-- A row of `apartmentVisitor`, `estateVisitor` or `officeVisitor`.
pub record Visitor : Type 0 where
  pub id : ℕ
  pub workspace_id : ℕ
  pub invited_by_user_id : Option ℕ
  pub invited_by_name : Option Text
  pub name : Text
  pub phone : Option Text
  pub email : Option Text
  pub purpose : Option Text
  pub location : Location
  pub valid_from : Option ℕ
  pub valid_until : Option ℕ
  pub notes : Option Text
  pub status : VisitorStatus
  pub qr_token : Text
  pub checked_in_at : Option ℕ
  pub checked_in_by_name : Option Text
  pub checked_out_at : Option ℕ
  pub checked_out_by_name : Option Text
  pub created_at : ℕ

pub record Site : Type 0 where
  pub id : ℕ
  pub name : Text
  pub template_type : TemplateType

pub record User : Type 0 where
  pub id : ℕ
  pub full_name : Option Text
  pub email : Option Text

-- What is sent, to whom, about which visitor.
pub data Message : Type 0 where
  invite_email invite_sms updated_email checked_in_email checked_out_email :
      Text → Visitor → Message

pub record Store : Type 0 where
  pub sites : List Site
  pub users : List User
  pub apartment_visitors : List Visitor
  pub estate_visitors : List Visitor
  pub office_visitors : List Visitor
  pub outbox : List Message

pub data Error : Type 0 where
  workspace_not_found visitor_not_found no_such_pass wrong_property : Error
  pass_cancelled pass_expired not_valid_yet already_checked_out cannot_process : Error
  not_your_pass not_expected checked_in_now cannot_extend invalid_date : Error
  not_allowed not_checked_in no_email email_not_sent : Error
