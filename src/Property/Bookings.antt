-- ===== src/Property/Bookings.antt =====
-- property/property.service.ts: `createAmenityBooking`. `now` is the time
-- of the call, `id` what the database generates, and a date that is given is `none` when it is not
-- one.
use tomafix_backend.Prelude.{
  ℕ, Bool, false, not, ◌&&◌, ◌||◌, [], ◌∷◌, ◌++◌, Option, none, some, Text, ◌==◌, nat_eq, list_eq,
  if◌then◌else◌, ltb, leb, is_some, find, Action, ◌>>=◌, ◌>>◌, pure, gets, throw_if, or_throw,
}
use tomafix_backend.Billing.Store.Enums.{MemberRole, role_eq}
use tomafix_backend.Property.Tables.{
  BookingStatus, booking_status_eq, Resident, Amenity, Booking, Message, Store, Error,
}
use tomafix_backend.Property.Access.{
  PropertyTemplate, assert_property_workspace, premises_of, change, normalize_optional_text,
  resolve_sender_name, get_resident_context, resident_of_user, estate_of, Actor, send_to,
}

-- `status: { in: [REQUESTED, APPROVED] }`
abbrev pub is_live : BookingStatus → Bool
is_live status = status == BookingStatus.requested || status == BookingStatus.approved

-- The `where` of the query for an overlap.
abbrev pub overlaps : ℕ → ℕ → ℕ → ℕ → Booking → Bool
overlaps workspace_id amenity_id start end b =
    b.workspace_id == workspace_id
    && b.amenity_id == amenity_id
    && is_live b.status
    && ltb b.start_at end
    && ltb start b.end_at

abbrev pub has_id : ℕ → Booking → Bool
has_id id b = b.id == id

abbrev pub is_booking : ℕ → ℕ → Booking → Bool
is_booking workspace_id id b = b.id == id && b.workspace_id == workspace_id

-- `sendBookingEmail` and `sendBookingSms`, to the resident of the booking
abbrev pub tell_resident : Bool → PropertyTemplate → Booking → Action Store Error (Unit {0})
tell_resident sms t b = do
  found ← gets (λ s. find (λ r. r.id == b.resident_id) (premises_of t s).residents)
  send_to (λ to. Message.booking_email to b) (elim found [ none ↦ none | some r ↦ r.email ])
  send_to (λ to. Message.booking_sms to b)
      (if sms then elim found [ none ↦ none | some r ↦ r.phone ] else none)

pub record BookingDto : Type 0 where
  pub resident_id : Option ℕ
  pub amenity_id : ℕ
  pub start_at : Option ℕ
  pub end_at : Option ℕ
  pub title : Option Text
  pub notes : Option Text

abbrev pub is_resident_role : Actor → Bool
is_resident_role actor = elim actor.role [ none ↦ false | some r ↦ r == MemberRole.resident ]

-- `actorResident?.id !== resident.id`
abbrev pub is_same_resident : Option Resident → ℕ → Bool
is_same_resident none id = false
is_same_resident (some r) id = r.id == id

-- `dto.residentId ? await this.getResidentContext(…) : actorResident`
abbrev pub booking_resident :
    ℕ → PropertyTemplate → Option ℕ → Option Resident → Action Store Error Resident
booking_resident workspace_id t none actor_resident =
    or_throw Error.resident_required actor_resident
booking_resident workspace_id t (some id) actor_resident = get_resident_context workspace_id t id

abbrev pub differs : Option ℕ → Option ℕ → Bool
differs (some a) (some b) = not (a == b)
differs _ _ = false

-- the booking that is inserted
abbrev pub booked :
    ℕ
    → ℕ
    → ℕ
    → PropertyTemplate
    → Actor
    → BookingDto
    → Resident
    → Amenity
    → Option ℕ
    → ℕ
    → ℕ
    → Text
    → Booking
booked now id workspace_id t actor dto resident amenity estate start end approver =
    let at_once = not amenity.requires_approval in
    record {
      id = id;
      workspace_id = workspace_id;
      amenity_id = amenity.id;
      resident_id = resident.id;
      unit_id = resident.unit_id;
      estate_id = elim t [
        | PropertyTemplate.apartment ↦ none
        | PropertyTemplate.estate ↦ elim amenity.estate_id [ none ↦ estate | some e ↦ some e ]
      ];
      title = normalize_optional_text dto.title;
      notes = normalize_optional_text dto.notes;
      response_note = none;
      start_at = start;
      end_at = end;
      status = if at_once then BookingStatus.approved else BookingStatus.requested;
      fee_amount = amenity.fee_amount;
      approved_at = if at_once then some now else none;
      approved_by_user_id = if at_once then actor.user_id else none;
      approved_by_name = if at_once then some approver else none;
      completed_at = none;
    }

-- Who the booking is for.
abbrev pub check_resident : ℕ → Actor → BookingDto → PropertyTemplate → Action Store Error Resident
check_resident workspace_id actor dto t = do
  actor_resident ← gets (resident_of_user workspace_id t actor.user_id)
  resident ← booking_resident workspace_id t dto.resident_id actor_resident
  throw_if (is_resident_role actor && not (is_same_resident actor_resident resident.id))
      Error.not_your_booking
  pure resident

abbrev pub check_amenity : ℕ → BookingDto → PropertyTemplate → Action Store Error Amenity
check_amenity workspace_id dto t = do
  row ← gets (λ s.
      find (λ a. a.id == dto.amenity_id && a.workspace_id == workspace_id)
        (premises_of t s).amenities)
  amenity ← or_throw Error.amenity_not_found row
  throw_if (not amenity.is_active) Error.amenity_inactive
  pure amenity

-- `amenity.estateId && residentEstateId && amenity.estateId !== residentEstateId`
abbrev pub is_elsewhere : PropertyTemplate → Amenity → Option ℕ → Bool
is_elsewhere PropertyTemplate.apartment amenity estate = false
is_elsewhere PropertyTemplate.estate amenity estate = differs amenity.estate_id estate

-- The amenity is here, and free then.
abbrev pub check_free :
    ℕ
    → ℕ
    → ℕ
    → Actor
    → BookingDto
    → PropertyTemplate
    → Resident
    → Amenity
    → ℕ
    → ℕ
    → Action Store Error Booking
check_free now id workspace_id actor dto t resident amenity start end = do
  estate ← gets (estate_of t resident)
  throw_if (is_elsewhere t amenity estate) Error.other_property
  overlap ← gets (λ s. find (overlaps workspace_id amenity.id start end) (premises_of t s).bookings)
  throw_if (is_some overlap) Error.already_booked
  approver ← gets (
      resolve_sender_name actor.user_id
        (if is_resident_role actor then some resident.full_name else none))
  pure (booked now id workspace_id t actor dto resident amenity estate start end approver)

abbrev pub check_hours :
    ℕ
    → ℕ
    → ℕ
    → Actor
    → BookingDto
    → PropertyTemplate
    → Resident
    → Amenity
    → Action Store Error Booking
check_hours now id workspace_id actor dto t resident amenity = do
  start ← or_throw Error.invalid_times dto.start_at
  end ← or_throw Error.invalid_times dto.end_at
  throw_if (leb end start) Error.end_before_start
  check_free now id workspace_id actor dto t resident amenity start end

abbrev pub check_place :
    ℕ → ℕ → ℕ → Actor → BookingDto → PropertyTemplate → Resident → Action Store Error Booking
check_place now id workspace_id actor dto t resident =
    check_amenity workspace_id dto t >>= check_hours now id workspace_id actor dto t resident

-- Everything before the row is created.
abbrev pub check_booking :
    ℕ → ℕ → ℕ → Actor → BookingDto → PropertyTemplate → Action Store Error Booking
check_booking now id workspace_id actor dto t =
    check_resident workspace_id actor dto t >>= check_place now id workspace_id actor dto t

-- `create` and what follows it; the primary key of the table is unique.
abbrev pub keep_booking : Bool → PropertyTemplate → Booking → Action Store Error Booking
keep_booking sms t b = do
  taken ← gets (λ s. find (has_id b.id) (premises_of t s).bookings)
  throw_if (is_some taken) Error.id_taken
  change t (λ p. record p { bookings = p.bookings ++ b ∷ [] })
  tell_resident sms t b
  pure b

abbrev pub create_in :
    Bool → ℕ → ℕ → ℕ → Actor → BookingDto → PropertyTemplate → Action Store Error Booking
create_in sms now id workspace_id actor dto t =
    check_booking now id workspace_id actor dto t >>= keep_booking sms t

-- `createAmenityBooking`
unfoldable pub create_amenity_booking :
    Bool → ℕ → ℕ → ℕ → Actor → BookingDto → Action Store Error Booking
create_amenity_booking sms now id workspace_id actor dto =
    assert_property_workspace workspace_id >>= create_in sms now id workspace_id actor dto
