-- ===== src/Property/Created.antt =====
-- `createAmenityBooking`: what the checks have found when the row is written.
use tomafix_backend.Prelude.{
  Option, some, refl, leb, or_throw, throw_if, throw_if-gives, reading-gives, Result, err, ◌>>=◌, ℕ,
  ◌≡◌, sym, Bool, false, List, [], ◌∷◌, ◌++◌, none, nat_eq, is_some, find, ◌>>◌, pure, ok, arith,
  All, All-not_found, Pairwise-append, reading-ends, throw_if-ends,
}
use tomafix_backend.Property.Tables.{Resident, Amenity, booking_status_eq, Booking, Store, Error}
use tomafix_backend.Property.Access.{
  PropertyTemplate, assert_property_workspace, premises_of, with_premises, change, Actor,
}
use tomafix_backend.Property.Bookings.{
  overlaps, has_id, tell_resident, BookingDto, check_booking, check_resident, check_amenity,
  check_free, check_hours, check_place, keep_booking, create_in, create_amenity_booking,
}
use tomafix_backend.Property.Disjoint.{
  Apart, IsDisjoint, Apart-sym, assert_reads, written-IsDisjoint, told-IsDisjoint, none-of_is_some,
  other_id, free_hour,
}

resident_reads :
    (ws : ℕ) (actor : Actor) (dto : BookingDto) (t : PropertyTemplate) (s : Store)
    → (check_resident ws actor dto t s).1 ≡ s
resident_reads ws actor dto t s = ground arith

amenity_reads :
    (ws : ℕ) (dto : BookingDto) (t : PropertyTemplate) (s : Store)
    → (check_amenity ws dto t s).1 ≡ s
amenity_reads ws dto t s = ground arith

module _ (now id ws : ℕ) (actor : Actor) (dto : BookingDto) (t : PropertyTemplate) (s : Store) where
  -- The checks only read, and the hours of a booking that they return are free.
  IsFree : Booking → Type 0
  IsFree b =
      find (overlaps b.workspace_id b.amenity_id b.start_at b.end_at) (premises_of t s).bookings
      ≡ none

  Checked : Result Error Booking × Store → Type 0
  Checked out = (out.1 ≡ s) × ((b : Booking) → out.0 ≡ ok b → IsFree b)

  thrown-Checked : (x : Error) → Checked (err x, s)
  unfolding Checked
  thrown-Checked x = (refl, λ b h. absurd (cc h))

  module _ (resident : Resident) (amenity : Amenity) where
    free-Checked :
        (start end : ℕ) → Checked (check_free now id ws actor dto t resident amenity start end s)
    unfolding Checked IsFree
    free-Checked start end = (ground arith, λ b h. ground (arith, h))

    hours-Checked : Checked (check_hours now id ws actor dto t resident amenity s)
    hours-Checked = go_on dto.start_at dto.end_at
      where
        go_on :
            (start end : Option ℕ)
            → Checked (
                (or_throw Error.invalid_times start >>= λ start.
                or_throw Error.invalid_times end >>= λ end.
                throw_if (leb end start) Error.end_before_start
                >> check_free now id ws actor dto t resident amenity start end)
                  s)
        go_on none end = thrown-Checked Error.invalid_times
        go_on (some start) none = thrown-Checked Error.invalid_times
        go_on (some start) (some end) =
            throw_if-gives Checked (leb end start) Error.end_before_start
              (check_free now id ws actor dto t resident amenity start end) s
              (thrown-Checked Error.end_before_start) (free-Checked start end)

  booking-Checked : Checked (check_booking now id ws actor dto t s)
  booking-Checked =
      reading-gives Checked (check_resident ws actor dto t) (check_place now id ws actor dto t) s
        (resident_reads ws actor dto t s) (λ x _. thrown-Checked x)
        λ resident _.
          reading-gives Checked (check_amenity ws dto t)
            (check_hours now id ws actor dto t resident) s (amenity_reads ws dto t s)
            (λ x _. thrown-Checked x) λ amenity _. hours-Checked resident amenity

  pub check_reads : (check_booking now id ws actor dto t s).1 ≡ s
  unfolding Checked
  check_reads = booking-Checked.0

  check_found :
      (b : Booking)
      → (check_booking now id ws actor dto t s).0 ≡ ok b
      → find (overlaps b.workspace_id b.amenity_id b.start_at b.end_at) (premises_of t s).bookings
        ≡ none
  unfolding Checked IsFree
  check_found b h = booking-Checked.1 b h

module _ (sms : Bool) (t : PropertyTemplate) (b : Booking) (s : Store) (h : IsDisjoint s)
    (free : find
        (overlaps b.workspace_id b.amenity_id b.start_at b.end_at)
        (premises_of t s).bookings
      ≡ none) where
  new-Apart :
      (rows : List Booking)
      → find (has_id b.id) rows ≡ none
      → find (overlaps b.workspace_id b.amenity_id b.start_at b.end_at) rows ≡ none
      → All (λ x. Apart x b) rows
  new-Apart rows fresh free = All_zip rows (All-not_found _ rows fresh) (All-not_found _ rows free)
    where
      All_zip :
          (rows : List Booking)
          → All (λ x. has_id b.id x ≡ false) rows
          → All (λ x. overlaps b.workspace_id b.amenity_id b.start_at b.end_at x ≡ false) rows
          → All (λ x. Apart x b) rows
      All_zip [] _ _ = tt
      All_zip (x ∷ xs) (h, hs) (k, ks) =
          (Apart-sym b x (λ e. other_id b x h (sym e), free_hour b x k), All_zip xs hs ks)

  pub kept-IsDisjoint : IsDisjoint (keep_booking sms t b s).1
  kept-IsDisjoint =
      throw_if-ends IsDisjoint (is_some (find (has_id b.id) (premises_of t s).bookings))
        Error.id_taken
        (change t (λ p. record p { bookings = p.bookings ++ b ∷ [] })
          >> (tell_resident sms t b >> pure b))
        s h
        λ fresh.
          told-IsDisjoint sms t b b
            (with_premises t
              (record (premises_of t s) { bookings = (premises_of t s).bookings ++ b ∷ [] }) s)
            (written-IsDisjoint t ((premises_of t s).bookings ++ b ∷ []) s h (
              Pairwise-append Apart (premises_of t s).bookings b (h t) (
                new-Apart (premises_of t s).bookings
                  (none-of_is_some (find (has_id b.id) (premises_of t s).bookings) fresh) free)))

-- Creating a booking, whatever is asked for, leaves the live bookings apart.
pub create_amenity_booking-IsDisjoint :
    (sms : Bool) (now id ws : ℕ) (actor : Actor) (dto : BookingDto) (s : Store)
    → IsDisjoint s
    → IsDisjoint (create_amenity_booking sms now id ws actor dto s).1
unfolding create_amenity_booking
create_amenity_booking-IsDisjoint sms now id ws actor dto s h =
    reading-ends IsDisjoint (assert_property_workspace ws) (create_in sms now id ws actor dto) s
      (assert_reads ws s) h
      λ t _.
        reading-ends IsDisjoint (check_booking now id ws actor dto t) (keep_booking sms t) s
          (check_reads now id ws actor dto t s) h
          λ b found. kept-IsDisjoint sms t b s h (check_found now id ws actor dto t s b found)
