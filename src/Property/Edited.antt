-- ===== src/Property/Edited.antt =====
-- `updateAmenityBooking`: what the checks have found when the row is rewritten.
use tomafix_backend.Prelude.{
  ℕ, ◌≡◌, refl, Bool, true, false, not, ◌&&◌, List, some, ◌==◌, nat_eq, if◌then◌else◌, is_some,
  find, update_first, ◌>>◌, pure, ok, Bool-cases, inl, inr, arith, All, All-map, All-not_found,
  Pairwise-update_first, reading-ends, or_throw-ends, find_holds, All-of_each,
}
use tomafix_backend.Property.Tables.{booking_status_eq, Booking, Store, Error}
use tomafix_backend.Property.Access.{
  PropertyTemplate, assert_property_workspace, premises_of, with_premises, Actor,
}
use tomafix_backend.Property.Bookings.{is_live, overlaps, is_booking, tell_resident}
use tomafix_backend.Property.Rebookings.{
  Times, check_edit, write_edit, edit_in, BookingEdit, next_status, updated, edit_found,
  update_amenity_booking,
}
use tomafix_backend.Property.Disjoint.{
  keeps-is_live, Apart, IsDisjoint, Apart-sym, assert_reads, written-IsDisjoint, told-IsDisjoint,
  none-of_is_some,
}

edit_reads :
    (ws id : ℕ) (actor : Actor) (dto : BookingEdit) (t : PropertyTemplate) (b : Booking) (s : Store)
    → (check_edit ws id actor dto t b s).1 ≡ s
edit_reads ws id actor dto t b s = ground arith

edit_found_free :
    (ws id : ℕ) (actor : Actor) (dto : BookingEdit) (t : PropertyTemplate) (b : Booking) (s : Store)
    (times : Times)
    → (check_edit ws id actor dto t b s).0 ≡ ok times
    → (is_live (next_status dto b)
        && is_some (
            find
              (λ x. not (x.id == id) && overlaps ws b.amenity_id times.start times.end x)
              (premises_of t s).bookings))
      ≡ false
edit_found_free ws id actor dto t b s times h = ground (arith, h)

booking-found :
    (ws id : ℕ) (rows : List Booking) (b : Booking)
    → find (is_booking ws id) rows ≡ some b
    → (b.id ≡ id) × (b.workspace_id ≡ ws)
booking-found ws id rows b found =
    let holds = find_holds (is_booking ws id) rows {x = b} found in
    ground (arith, holds, nat_eq.same_iff b.id id, nat_eq.same_iff b.workspace_id ws)

module _ (now ws id : ℕ) (actor : Actor) (dto : BookingEdit) (t : PropertyTemplate) (b : Booking)
    (times : Times) where
  edited : Booking → Booking
  edited = updated now actor times.approver dto times.start times.end

  stays-Apart :
      (x : Booking)
      → b.id ≡ id
      → b.workspace_id ≡ ws
      → (is_live (next_status dto b)
          && (not (x.id == id) && overlaps ws b.amenity_id times.start times.end x))
        ≡ false
      → Apart b x
      → Apart (edited b) x
  unfolding edited
  stays-Apart x same here_too free (ne, h) = (
    ne,
    ground (
      arith,
      free,
      ne,
      same,
      here_too,
      nat_eq.same_iff x.id id,
      keeps-is_live x.status,
      keeps-is_live (next_status dto b),
      nat_eq.same_iff b.amenity_id x.amenity_id,
      nat_eq.same_iff x.amenity_id b.amenity_id,
      nat_eq.same_iff b.workspace_id x.workspace_id,
      nat_eq.same_iff ws x.workspace_id,
      nat_eq.same_iff x.workspace_id b.workspace_id,
      nat_eq.same_iff x.workspace_id ws,
    ),
  )

  All-stay-Apart :
      (rows : List Booking)
      → b.id ≡ id
      → b.workspace_id ≡ ws
      → (is_live (next_status dto b)
          && is_some (
              find
                (λ x. not (x.id == id) && overlaps ws b.amenity_id times.start times.end x)
                rows))
        ≡ false
      → All (λ x. Apart b x → Apart (edited b) x) rows
  All-stay-Apart rows same here_too free = elim (Bool-cases (is_live (next_status dto b))) [
    | inl live ↦
        let none_found = none-of_is_some _ (rw live at free) in
        All-map _ _ (λ x clear. stays-Apart x same here_too (rw live clear)) rows
          (All-not_found (λ x. not (x.id == id) && overlaps ws b.amenity_id times.start times.end x)
            rows none_found)
    | inr not_live ↦ All-of_each _ rows λ x. stays-Apart x same here_too (rw not_live refl)
  ]

  tell_change :
      (sms same : Bool) (x : Booking) (s : Store)
      → IsDisjoint s
      → IsDisjoint (((if same then pure tt else tell_resident sms t x) >> pure x) s).1
  tell_change sms true x s h = h
  tell_change sms false x s h = told-IsDisjoint sms t x x s h

  written_edit-IsDisjoint :
      (sms : Bool) (s : Store)
      → IsDisjoint s
      → find (is_booking ws id) (premises_of t s).bookings ≡ some b
      → (is_live (next_status dto b)
          && is_some (
              find
                (λ x. not (x.id == id) && overlaps ws b.amenity_id times.start times.end x)
                (premises_of t s).bookings))
        ≡ false
      → IsDisjoint (write_edit sms now ws id actor dto t b times s).1
  unfolding edited
  written_edit-IsDisjoint sms s h found free =
      let rows = (premises_of t s).bookings in
      let (same, here_too) = booking-found ws id rows b found in
      let rows' = update_first (is_booking ws id) edited rows in
      tell_change sms (next_status dto b == b.status) (edited b)
        (with_premises t (record (premises_of t s) { bookings = rows' }) s)
        (written-IsDisjoint t rows' s h (
          Pairwise-update_first Apart Apart-sym (is_booking ws id) edited rows b found
            (All-stay-Apart rows same here_too free) (h t)))

-- Changing a booking, whatever is asked for and whoever asks, leaves the live bookings apart.
pub update_amenity_booking-IsDisjoint :
    (sms : Bool) (now ws id : ℕ) (actor : Actor) (dto : BookingEdit) (s : Store)
    → IsDisjoint s
    → IsDisjoint (update_amenity_booking sms now ws id actor dto s).1
unfolding update_amenity_booking
update_amenity_booking-IsDisjoint sms now ws id actor dto s h =
    reading-ends IsDisjoint (assert_property_workspace ws) (edit_in sms now ws id actor dto) s
      (assert_reads ws s) h
      λ t _.
        or_throw-ends IsDisjoint Error.booking_not_found
          (find (is_booking ws id) (premises_of t s).bookings)
          (edit_found sms now ws id actor dto t) s h
          λ b found.
            reading-ends IsDisjoint (check_edit ws id actor dto t b)
              (write_edit sms now ws id actor dto t b) s (edit_reads ws id actor dto t b s) h
              λ times ok_times.
                written_edit-IsDisjoint now ws id actor dto t b times sms s h found
                  (edit_found_free ws id actor dto t b s times ok_times)
