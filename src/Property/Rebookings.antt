-- ===== src/Property/Rebookings.antt =====
-- property/property.service.ts: `updateAmenityBooking`. `now` is the time of the call, and a date that
-- is given is `none` when it is not one.
use tomafix_backend.Prelude.{
  ℕ, Bool, false, not, ◌&&◌, Option, none, some, Text, ◌==◌, nat_eq, list_eq, if◌then◌else◌, leb,
  or_else, is_some, find, update_first, Action, ◌>>=◌, ◌>>◌, pure, gets, throw_if, or_throw,
}
use tomafix_backend.Billing.Store.Enums.{role_eq}
use tomafix_backend.Property.Tables.{BookingStatus, booking_status_eq, Booking, Store, Error}
use tomafix_backend.Property.Access.{
  PropertyTemplate, assert_property_workspace, premises_of, change, normalize_optional_text,
  resolve_sender_name, resident_of_user, Actor,
}
use tomafix_backend.Property.Bookings.{
  is_live, overlaps, is_booking, tell_resident, is_resident_role, is_same_resident,
}

abbrev pub update_booking :
    PropertyTemplate → (Booking → Bool) → (Booking → Booking) → Action Store Error (Unit {0})
update_booking t p f = change t (λ q. record q { bookings = update_first p f q.bookings })

-- A field of a partial update is missing, or is what is written; a date that is given is `none`
-- when it is not one.
pub record BookingEdit : Type 0 where
  pub title : Option (Option Text)
  pub notes : Option (Option Text)
  pub response_note : Option (Option Text)
  pub start_at : Option (Option ℕ)
  pub end_at : Option (Option ℕ)
  pub status : Option BookingStatus

abbrev pub edited_text : Option (Option Text) → Option Text → Option Text
edited_text none old = old
edited_text (some new) old = normalize_optional_text new

-- `dto.startAt !== undefined ? new Date(…) : existing.startAt`
abbrev pub next_time : Option (Option ℕ) → ℕ → Option ℕ
next_time none old = some old
next_time (some given) old = given

abbrev pub next_status : BookingEdit → Booking → BookingStatus
next_status dto b = or_else dto.status b.status

abbrev pub updated : ℕ → Actor → Text → BookingEdit → ℕ → ℕ → Booking → Booking
updated now actor approver dto start end b =
    let status = next_status dto b in
    let approves = status == BookingStatus.approved && not (b.status == BookingStatus.approved) in
    let completes =
      status == BookingStatus.completed && not (b.status == BookingStatus.completed) in
    record b {
      title = edited_text dto.title b.title;
      notes = edited_text dto.notes b.notes;
      response_note = edited_text dto.response_note b.response_note;
      start_at = start;
      end_at = end;
      status = status;
      approved_at = if approves then some now else b.approved_at;
      approved_by_user_id = if approves then actor.user_id else b.approved_by_user_id;
      approved_by_name = if approves then some approver else b.approved_by_name;
      completed_at = if completes then some now else b.completed_at;
    }

-- `dto.status && dto.status !== CANCELLED`
abbrev pub asks_more : Option BookingStatus → Bool
asks_more none = false
asks_more (some status) = not (status == BookingStatus.cancelled)

abbrev pub check_actor :
    ℕ → Actor → BookingEdit → PropertyTemplate → Booking → Action Store Error (Unit {0})
check_actor workspace_id actor dto t b = do
  mine ← gets (resident_of_user workspace_id t actor.user_id)
  throw_if (is_resident_role actor && not (is_same_resident mine b.resident_id))
      Error.not_your_booking
  throw_if (is_resident_role actor && asks_more dto.status) Error.only_cancel

-- What the checks find: the new times, and who would approve.
pub record Times : Type 0 where
  pub start : ℕ
  pub end : ℕ
  pub approver : Text

abbrev pub check_edit :
    ℕ → ℕ → Actor → BookingEdit → PropertyTemplate → Booking → Action Store Error Times
check_edit workspace_id id actor dto t b = do
  check_actor workspace_id actor dto t b
  start ← or_throw Error.invalid_times (next_time dto.start_at b.start_at)
  end ← or_throw Error.invalid_times (next_time dto.end_at b.end_at)
  throw_if (leb end start) Error.end_before_start
  overlap ← gets (λ s.
      find (λ x. not (x.id == id) && overlaps workspace_id b.amenity_id start end x)
        (premises_of t s).bookings)
  throw_if (is_live (next_status dto b) && is_some overlap) Error.already_booked
  approver ← gets (resolve_sender_name actor.user_id none)
  pure (record { start = start; end = end; approver = approver })

abbrev pub write_edit :
    Bool
    → ℕ
    → ℕ
    → ℕ
    → Actor
    → BookingEdit
    → PropertyTemplate
    → Booking
    → Times
    → Action Store Error Booking
write_edit sms now workspace_id id actor dto t b times = do
  update_booking t (is_booking workspace_id id)
      (updated now actor times.approver dto times.start times.end)
  if next_status dto b == b.status
      then pure tt
      else tell_resident sms t (updated now actor times.approver dto times.start times.end b)
  pure (updated now actor times.approver dto times.start times.end b)

abbrev pub edit_found :
    Bool → ℕ → ℕ → ℕ → Actor → BookingEdit → PropertyTemplate → Booking → Action Store Error Booking
edit_found sms now workspace_id id actor dto t b =
    check_edit workspace_id id actor dto t b >>= write_edit sms now workspace_id id actor dto t b

abbrev pub edit_in :
    Bool → ℕ → ℕ → ℕ → Actor → BookingEdit → PropertyTemplate → Action Store Error Booking
edit_in sms now workspace_id id actor dto t = do
  found ← gets (λ s. find (is_booking workspace_id id) (premises_of t s).bookings)
  b ← or_throw Error.booking_not_found found
  edit_found sms now workspace_id id actor dto t b

-- `updateAmenityBooking`
unfoldable pub update_amenity_booking :
    Bool → ℕ → ℕ → ℕ → Actor → BookingEdit → Action Store Error Booking
update_amenity_booking sms now workspace_id id actor dto =
    assert_property_workspace workspace_id >>= edit_in sms now workspace_id id actor dto
