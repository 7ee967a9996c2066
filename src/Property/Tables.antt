-- ===== src/Property/Tables.antt =====
-- The tables of apartments and estates (models of prisma/schema.prisma) that the bookings and the
-- residents' handlers read and write. Ids are numbers, times are milliseconds.
use tomafix_backend.Prelude.{
  ℕ, Bool, List, Option, Text, Eq, place_beq, place_beq_iff, Lists, refl, ◌∷◌, [],
}
use tomafix_backend.Billing.Plans.{TemplateType}

pub data BookingStatus : Type 0 where
  requested approved rejected cancelled completed : BookingStatus

abbrev pub booking_status_place : BookingStatus → ℕ
booking_status_place BookingStatus.requested = 0
booking_status_place BookingStatus.approved = 1
booking_status_place BookingStatus.rejected = 2
booking_status_place BookingStatus.cancelled = 3
booking_status_place BookingStatus.completed = 4

abbrev pub booking_statuses : List BookingStatus
booking_statuses =
    BookingStatus.requested ∷ BookingStatus.approved ∷ BookingStatus.rejected
    ∷ BookingStatus.cancelled ∷ BookingStatus.completed ∷ []

pub Lists-booking_statuses : Lists booking_status_place booking_statuses
Lists-booking_statuses BookingStatus.requested = refl
Lists-booking_statuses BookingStatus.approved = refl
Lists-booking_statuses BookingStatus.rejected = refl
Lists-booking_statuses BookingStatus.cancelled = refl
Lists-booking_statuses BookingStatus.completed = refl

instance abbrev pub booking_status_eq : Eq BookingStatus
booking_status_eq = record {
  same_as = place_beq booking_status_place;
  same_iff = place_beq_iff booking_status_place booking_statuses Lists-booking_statuses;
}

pub data UnitStatus : Type 0 where
  vacant occupied maintenance : UnitStatus

abbrev pub unit_status_place : UnitStatus → ℕ
unit_status_place UnitStatus.vacant = 0
unit_status_place UnitStatus.occupied = 1
unit_status_place UnitStatus.maintenance = 2

abbrev pub unit_statuses : List UnitStatus
unit_statuses = UnitStatus.vacant ∷ UnitStatus.occupied ∷ UnitStatus.maintenance ∷ []

pub Lists-unit_statuses : Lists unit_status_place unit_statuses
Lists-unit_statuses UnitStatus.vacant = refl
Lists-unit_statuses UnitStatus.occupied = refl
Lists-unit_statuses UnitStatus.maintenance = refl

instance abbrev pub unit_status_eq : Eq UnitStatus
unit_status_eq = record {
  same_as = place_beq unit_status_place;
  same_iff = place_beq_iff unit_status_place unit_statuses Lists-unit_statuses;
}

-- `ApartmentUnit` and `EstateUnit`; only the latter has an estate.
pub record Dwelling : Type 0 where
  pub id : ℕ
  pub workspace_id : ℕ
  pub estate_id : Option ℕ
  pub status : UnitStatus

pub data ResidentRole : Type 0 where
  tenant owner manager : ResidentRole

-- `ApartmentResident` and `EstateResident`; `active` is `status = ACTIVE`.
pub record Resident : Type 0 where
  pub id : ℕ
  pub workspace_id : ℕ
  pub unit_id : Option ℕ
  pub full_name : Text
  pub phone : Option Text
  pub email : Option Text
  pub role : ResidentRole
  pub active : Bool

pub record Amenity : Type 0 where
  pub id : ℕ
  pub workspace_id : ℕ
  pub estate_id : Option ℕ
  pub fee_amount : Option ℕ
  pub requires_approval : Bool
  pub is_active : Bool

pub record Booking : Type 0 where
  pub id : ℕ
  pub workspace_id : ℕ
  pub amenity_id : ℕ
  pub resident_id : ℕ
  pub unit_id : Option ℕ
  pub estate_id : Option ℕ
  pub title : Option Text
  pub notes : Option Text
  pub response_note : Option Text
  pub start_at : ℕ
  pub end_at : ℕ
  pub status : BookingStatus
  pub fee_amount : Option ℕ
  pub approved_at : Option ℕ
  pub approved_by_user_id : Option ℕ
  pub approved_by_name : Option Text
  pub completed_at : Option ℕ

-- A row of `apartmentRequest` or `estateRequest`, as far as the residents' handlers look.
pub record Request : Type 0 where
  pub workspace_id : ℕ
  pub resident_id : ℕ

pub record Site : Type 0 where
  pub id : ℕ
  pub template_type : TemplateType

pub record User : Type 0 where
  pub id : ℕ
  pub full_name : Option Text
  pub phone : Option Text
  pub email : Option Text

pub record Member : Type 0 where
  pub workspace_id : ℕ
  pub user_id : ℕ

-- An invite of a resident (`role = RESIDENT`), which is not scoped to a unit.
pub record Invite : Type 0 where
  pub workspace_id : ℕ
  pub email : Text
  pub created_at : ℕ
  pub expires_at : ℕ
  pub accepted_at : Option ℕ

-- The tables of one of the two kinds.
pub record Premises : Type 0 where
  pub units : List Dwelling
  pub residents : List Resident
  pub amenities : List Amenity
  pub bookings : List Booking
  pub requests : List Request

pub data Message : Type 0 where
  booking_email booking_sms : Text → Booking → Message

pub record Store : Type 0 where
  pub sites : List Site
  pub users : List User
  pub members : List Member
  pub invites : List Invite
  pub apartment : Premises
  pub estate : Premises
  pub outbox : List Message

pub data Error : Type 0 where
  workspace_not_found unsupported_template id_taken : Error
  resident_not_found resident_required not_your_booking only_cancel : Error
  amenity_not_found amenity_inactive invalid_times end_before_start : Error
  other_property already_booked booking_not_found : Error
  unit_not_found unit_taken empty_name too_many_invites email_not_sent : Error
