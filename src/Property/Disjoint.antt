-- ===== src/Property/Disjoint.antt =====
-- No two live bookings of one amenity overlap.
use tomafix_backend.Prelude.{
  ℕ, ◌≡◌, ◌≢◌, refl, sym, subst, Bool, true, false, ◌==◌, ltb, ◌&&◌, List, Option, none, some,
  nat_eq, is_some, ◌>>◌, pure, arith, Pairwise,
}
use tomafix_backend.Property.Tables.{BookingStatus, booking_status_eq, Booking, Premises, Store}
use tomafix_backend.Property.Access.{
  PropertyTemplate, assert_property_workspace, premises_of, with_premises,
}
use tomafix_backend.Property.Bookings.{is_live, overlaps, has_id, tell_resident}

-- A booking keeps its hours while it waits for an answer and once it is granted.
abbrev pub keeps_hours : BookingStatus → Bool
keeps_hours BookingStatus.requested = true
keeps_hours BookingStatus.approved = true
keeps_hours BookingStatus.rejected = false
keeps_hours BookingStatus.cancelled = false
keeps_hours BookingStatus.completed = false

-- Two bookings that keep hours of one amenity, each of which begins before the other ends.
abbrev pub clash : Booking → Booking → Bool
clash x y =
    keeps_hours x.status
    && keeps_hours y.status
    && x.workspace_id == y.workspace_id
    && x.amenity_id == y.amenity_id
    && ltb x.start_at y.end_at
    && ltb y.start_at x.end_at

pub keeps-is_live : (st : BookingStatus) → is_live st ≡ keeps_hours st
keeps-is_live BookingStatus.requested = refl
keeps-is_live BookingStatus.approved = refl
keeps-is_live BookingStatus.rejected = refl
keeps-is_live BookingStatus.cancelled = refl
keeps-is_live BookingStatus.completed = refl

abbrev pub Apart : Booking → Booking → Type 0
Apart x y = (x.id ≢ y.id) × (clash x y ≡ false)

abbrev pub IsDisjoint : Store → Type 0
IsDisjoint s = (t : PropertyTemplate) → Pairwise Apart (premises_of t s).bookings

pub Apart-sym : (x y : Booking) → Apart x y → Apart y x
Apart-sym x y (ne, h) = (
  λ e. ne (sym e),
  ground (
    arith,
    h,
    nat_eq.same_iff x.workspace_id y.workspace_id,
    nat_eq.same_iff y.workspace_id x.workspace_id,
    nat_eq.same_iff x.amenity_id y.amenity_id,
    nat_eq.same_iff y.amenity_id x.amenity_id,
  ),
)

pub assert_reads : (ws : ℕ) (s : Store) → (assert_property_workspace ws s).1 ≡ s
assert_reads ws s = ground arith

pub told_keeps :
    (sms : Bool) (t t' : PropertyTemplate) (b x : Booking) (s : Store)
    → premises_of t' ((tell_resident sms t b >> pure x) s).1 ≡ premises_of t' s
told_keeps sms t PropertyTemplate.apartment b x s = ground arith
told_keeps sms t PropertyTemplate.estate b x s = ground arith

-- One table of bookings is written.
pub written-IsDisjoint :
    (t : PropertyTemplate) (rows : List Booking) (s : Store)
    → IsDisjoint s
    → Pairwise Apart rows
    → IsDisjoint (with_premises t (record (premises_of t s) { bookings = rows }) s)
written-IsDisjoint PropertyTemplate.apartment rows s h k PropertyTemplate.apartment = k
written-IsDisjoint PropertyTemplate.apartment rows s h k PropertyTemplate.estate =
    h PropertyTemplate.estate
written-IsDisjoint PropertyTemplate.estate rows s h k PropertyTemplate.apartment =
    h PropertyTemplate.apartment
written-IsDisjoint PropertyTemplate.estate rows s h k PropertyTemplate.estate = k

pub told-IsDisjoint :
    (sms : Bool) (t : PropertyTemplate) (b x : Booking) (s : Store)
    → IsDisjoint s
    → IsDisjoint ((tell_resident sms t b >> pure x) s).1
told-IsDisjoint sms t b x s h t' =
    subst (λ (p : Premises). Pairwise Apart p.bookings) (sym (told_keeps sms t t' b x s)) (h t')

pub none-of_is_some : {A : Type 0} (o : Option A) → is_some o ≡ false → o ≡ none
none-of_is_some none h = refl
none-of_is_some (some a) h = absurd (cc h)

pub other_id : (b x : Booking) → has_id b.id x ≡ false → x.id ≢ b.id
other_id b x h = ground (arith, h, nat_eq.same_iff x.id b.id)

pub free_hour :
    (b x : Booking)
    → overlaps b.workspace_id b.amenity_id b.start_at b.end_at x ≡ false
    → clash b x ≡ false
free_hour b x h = ground (
  arith,
  h,
  keeps-is_live x.status,
  nat_eq.same_iff b.workspace_id x.workspace_id,
  nat_eq.same_iff x.workspace_id b.workspace_id,
  nat_eq.same_iff b.amenity_id x.amenity_id,
  nat_eq.same_iff x.amenity_id b.amenity_id,
)
