-- ===== src/Property/Calls.antt =====
-- Bookings over a sequence of calls, and of two calls at once.
use tomafix_backend.Prelude.{
  refl, ℕ, ◌≡◌, ◌≢◌, sym, subst, Bool, true, List, [], ◌∷◌, ◌++◌, none, nat_eq, find, Action, ◌>>=◌,
  ◌>>◌, ok, arith, Pairwise, >>=_ok, find-append_new, pair_eq, ◌∙◌, ap,
}
use tomafix_backend.Property.Tables.{booking_status_eq, Booking, Store, Error}
use tomafix_backend.Property.Access.{PropertyTemplate, premises_of, Actor}
use tomafix_backend.Property.Bookings.{
  has_id, BookingDto, check_booking, keep_booking, create_amenity_booking,
}
use tomafix_backend.Property.Rebookings.{BookingEdit, update_amenity_booking}
use tomafix_backend.Property.Disjoint.{Apart, IsDisjoint, clash}
use tomafix_backend.Property.Created.{check_reads, create_amenity_booking-IsDisjoint}
use tomafix_backend.Property.Edited.{update_amenity_booking-IsDisjoint}

pub data Call : Type 0 where
  create : Bool → ℕ → ℕ → ℕ → Actor → BookingDto → Call
  update : Bool → ℕ → ℕ → ℕ → Actor → BookingEdit → Call

-- The store after a call, whether it returned or threw.
abbrev pub after : Call → Store → Store
after (Call.create sms now id ws actor dto) s = (create_amenity_booking sms now id ws actor dto s).1
after (Call.update sms now ws id actor dto) s = (update_amenity_booking sms now ws id actor dto s).1

abbrev pub after_all : List Call → Store → Store
after_all [] s = s
after_all (c ∷ cs) s = after_all cs (after c s)

after-IsDisjoint : (c : Call) (s : Store) → IsDisjoint s → IsDisjoint (after c s)
after-IsDisjoint (Call.create sms now id ws actor dto) s h =
    create_amenity_booking-IsDisjoint sms now id ws actor dto s h
after-IsDisjoint (Call.update sms now ws id actor dto) s h =
    update_amenity_booking-IsDisjoint sms now ws id actor dto s h

-- Over any sequence of calls that create or change a booking, whatever their arguments and whether
-- they return or throw, the bookings of each kind of property have different ids, and no two of them
-- that are requested or approved are of one amenity at one time, if this held before.
pub after_all-IsDisjoint : (cs : List Call) (s : Store) → IsDisjoint s → IsDisjoint (after_all cs s)
after_all-IsDisjoint [] s h = h
after_all-IsDisjoint (c ∷ cs) s h = after_all-IsDisjoint cs (after c s) (after-IsDisjoint c s h)

kept_rows :
    (sms : Bool) (t : PropertyTemplate) (b : Booking) (s : Store)
    → find (has_id b.id) (premises_of t s).bookings ≡ none
    → (premises_of t (keep_booking sms t b s).1).bookings ≡ (premises_of t s).bookings ++ b ∷ []
kept_rows sms PropertyTemplate.apartment b s fresh = ground (arith, fresh)
kept_rows sms PropertyTemplate.estate b s fresh = ground (arith, fresh)

last_two :
    (rows : List Booking) (b c : Booking) → Pairwise Apart ((rows ++ b ∷ []) ++ c ∷ []) → Apart b c
last_two [] b c ((h, _), _) = h
last_two (x ∷ rows) b c (_, h) = last_two rows b c h

append_two : (rows : List Booking) (b c : Booking) → (rows ++ b ∷ []) ++ c ∷ [] ≡ rows ++ b ∷ c ∷ []
append_two [] b c = refl
append_two (x ∷ rows) b c = ap (λ rows. x ∷ rows) (append_two rows b c)

still_fresh :
    (rows : List Booking) (b c : Booking)
    → find (has_id c.id) rows ≡ none
    → b.id ≢ c.id
    → find (has_id c.id) (rows ++ b ∷ []) ≡ none
still_fresh rows b c fresh ne =
    ground (arith, find-append_new (has_id c.id) rows b fresh, ne, nat_eq.same_iff b.id c.id)

kept-ok :
    (sms : Bool) (t : PropertyTemplate) (b : Booking) (s : Store)
    → find (has_id b.id) (premises_of t s).bookings ≡ none
    → keep_booking sms t b s ≡ (ok b, (keep_booking sms t b s).1)
kept-ok sms t b s fresh = ground (arith, fresh)

module _ (sms : Bool) (now id id' ws : ℕ) (actor actor' : Actor) (dto dto' : BookingDto)
    (t : PropertyTemplate) where
  -- Two calls of `createAmenityBooking` that interleave: the second checks before the first writes.
  abbrev pub write_both : Booking → Booking → Action Store Error Booking
  write_both b c = keep_booking sms t b >> keep_booking sms t c

  abbrev pub check_second : Booking → Action Store Error Booking
  check_second b = check_booking now id' ws actor' dto' t >>= write_both b

  abbrev pub raced : Action Store Error Booking
  raced = check_booking now id ws actor dto t >>= check_second

  -- The same two calls, the second after the first.
  abbrev pub one_by_one : List Call
  one_by_one = Call.create sms now id ws actor dto ∷ Call.create sms now id' ws actor' dto' ∷ []

  module _ (b c : Booking) (s : Store) (first : (check_booking now id ws actor dto t s).0 ≡ ok b)
      (second : (check_booking now id' ws actor' dto' t s).0 ≡ ok c) (ne : b.id ≢ c.id)
      (fresh : find (has_id b.id) (premises_of t s).bookings ≡ none)
      (fresh' : find (has_id c.id) (premises_of t s).bookings ≡ none) where
    both_rows :
        (premises_of t (keep_booking sms t c (keep_booking sms t b s).1).1).bookings
        ≡ ((premises_of t s).bookings ++ b ∷ []) ++ c ∷ []
    both_rows =
        let rows = (premises_of t s).bookings in
        let s' = (keep_booking sms t b s).1 in
        let e = kept_rows sms t b s fresh in
        let fresh'' =
          subst (λ rows. find (has_id c.id) rows ≡ none) (sym e) (still_fresh rows b c fresh' ne) in
        kept_rows sms t c s' fresh'' ∙ ap (λ (rows : List Booking). rows ++ c ∷ []) e

    raced_state : (raced s).1 ≡ (keep_booking sms t c (keep_booking sms t b s).1).1
    raced_state =
        let whole =
          pair_eq (check_booking now id ws actor dto t s) first
            (check_reads now id ws actor dto t s) in
        let whole' =
          pair_eq (check_booking now id' ws actor' dto' t s) second
            (check_reads now id' ws actor' dto' t s) in
        ap (λ out. out.1)
          (>>=_ok (check_booking now id ws actor dto t) check_second s whole
            ∙ >>=_ok (check_booking now id' ws actor' dto' t) (write_both b) s whole'
            ∙ >>=_ok (keep_booking sms t b) (λ _. keep_booking sms t c) s (kept-ok sms t b s fresh))

    -- In a store without overlaps, two calls of createAmenityBooking each pass their checks before
    -- the other has written a row, and their bookings have new, different ids and are of one amenity
    -- at one time: both bookings are kept behind those that were there, so that two of them
    -- overlap, where the same two calls one after the other leave no overlap.
    pub raced-overlaps :
        IsDisjoint s
        → clash b c ≡ true
        → ((premises_of t (raced s).1).bookings ≡ (premises_of t s).bookings ++ b ∷ c ∷ [])
          × (¬ IsDisjoint (raced s).1)
          × IsDisjoint (after_all one_by_one s)
    raced-overlaps before same =
        let rows = ap (λ s. (premises_of t s).bookings) raced_state ∙ both_rows in
        (
          rows ∙ append_two (premises_of t s).bookings b c,
          λ disjoint.
              let (_, apart) =
                last_two (premises_of t s).bookings b c
                  (subst (Pairwise Apart) rows (disjoint t)) in
              cc (same, apart),
          after_all-IsDisjoint one_by_one s before,
        )
