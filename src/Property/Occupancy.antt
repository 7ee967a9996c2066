-- ===== src/Property/Occupancy.antt =====
-- The handlers of residents keep every unit marked as occupied exactly when an active resident has
-- it.
use tomafix_backend.Prelude.{
  ℕ, ◌≡◌, refl, subst, Bool, true, false, not, Option, none, some, ◌==◌, nat_eq, find, find_holds,
  ltb, or_else, if◌then◌else◌, List, update_first, delete_first, delete_where, filter_rows, length,
  ◌>>◌, pure, throw_if, arith, or_throw-ends, throw_if-ends, reading-ends,
}
use tomafix_backend.Property.Tables.{Resident, Premises, Store, Error}
use tomafix_backend.Property.Access.{
  PropertyTemplate, assert_property_workspace, premises_of, with_premises, is_resident,
}
use tomafix_backend.Property.Units.{check_unit, synced, sync_unit_occupancy}
use tomafix_backend.Property.Residents.{
  ResidentEdit, edited_resident, other_unit, write_resident, update_resident_in, update_resident,
  archived, is_request_of, remove_resident, change_resident, delete_found, Removal,
  delete_resident_in, delete_resident, force_delete_in, force_found, force_delete_resident,
  is_blank,
}
use tomafix_backend.Property.Settled.{IsSettled}
use tomafix_backend.Property.Moves.{go-IsSettled, move-IsSettled}

abbrev pub IsOccupancyTrue : Store → Type 0
IsOccupancyTrue s = (t : PropertyTemplate) → IsSettled (premises_of t s)

pub assert_reads : (ws : ℕ) (s : Store) → (assert_property_workspace ws s).1 ≡ s
assert_reads ws s = ground arith

pub check_unit_reads :
    (ws : ℕ) (other : Resident → Bool) (unit : Option ℕ) (t : PropertyTemplate) (s : Store)
    → (check_unit ws other unit t s).1 ≡ s
check_unit_reads ws other none t s = refl
check_unit_reads ws other (some id) t s = ground arith

found_here :
    (ws id : ℕ) (rs : List Resident) (r : Resident)
    → find (is_resident ws id) rs ≡ some r
    → r.workspace_id ≡ ws
found_here ws id rs r found =
    let holds = find_holds (is_resident ws id) rs {x = r} found in
    ground (arith, holds, nat_eq.same_iff r.workspace_id ws)

module _ (ws id : ℕ) (p : Premises) (h : IsSettled p) (r : Resident)
    (found : find (is_resident ws id) p.residents ≡ some r) where
  moved :
      (f : Resident → Resident)
      → (f r).workspace_id ≡ r.workspace_id
      → IsSettled (
          synced ws (other_unit (f r).unit_id r.unit_id) (
            synced ws r.unit_id
              (record p { residents = update_first (is_resident ws id) f p.residents })))
  moved f stays =
      subst
        (λ w. IsSettled (
          synced w (other_unit (f r).unit_id r.unit_id) (
            synced w r.unit_id
              (record p { residents = update_first (is_resident ws id) f p.residents }))))
        (found_here ws id p.residents r found)
        (move-IsSettled p h r (is_resident ws id) found f stays)

  gone :
      IsSettled (
        synced ws r.unit_id (record p { residents = delete_first (is_resident ws id) p.residents }))
  gone =
      subst
        (λ w. IsSettled (
          synced w r.unit_id
            (record p { residents = delete_first (is_resident ws id) p.residents })))
        (found_here ws id p.residents r found) (go-IsSettled p h r (is_resident ws id) found)

pub both : (s : Store) → IsSettled s.apartment → IsSettled s.estate → IsOccupancyTrue s
both s a e PropertyTemplate.apartment = a
both s a e PropertyTemplate.estate = e

module _ (ws id : ℕ) (s : Store) (h : IsOccupancyTrue s) where
  written-IsOccupancyTrue :
      (user_id : ℕ) (dto : ResidentEdit) (t : PropertyTemplate) (r : Resident)
      → find (is_resident ws id) (premises_of t s).residents ≡ some r
      → IsOccupancyTrue (write_resident user_id ws id dto t r s).1
  written-IsOccupancyTrue user_id dto PropertyTemplate.apartment r found =
      both (write_resident user_id ws id dto PropertyTemplate.apartment r s).1
        (moved ws id s.apartment (h PropertyTemplate.apartment) r found (edited_resident dto) refl)
        (h PropertyTemplate.estate)
  written-IsOccupancyTrue user_id dto PropertyTemplate.estate r found =
      both (write_resident user_id ws id dto PropertyTemplate.estate r s).1
        (h PropertyTemplate.apartment)
        (moved ws id s.estate (h PropertyTemplate.estate) r found (edited_resident dto) refl)

  -- One table is settled, and the other is as it was.
  one : (t : PropertyTemplate) (p : Premises) → IsSettled p → IsOccupancyTrue (with_premises t p s)
  one PropertyTemplate.apartment p k =
      both (with_premises PropertyTemplate.apartment p s) k (h PropertyTemplate.estate)
  one PropertyTemplate.estate p k =
      both (with_premises PropertyTemplate.estate p s) (h PropertyTemplate.apartment) k

  -- Changing a resident, whatever is written and whoever lives where.
  pub update_resident-IsOccupancyTrue :
      (user_id : ℕ) (dto : ResidentEdit) → IsOccupancyTrue (update_resident user_id ws id dto s).1
  unfolding update_resident
  update_resident-IsOccupancyTrue user_id dto =
      reading-ends IsOccupancyTrue (assert_property_workspace ws)
        (update_resident_in user_id ws id dto) s (assert_reads ws s) h
        λ t _.
          let unit = or_else dto.unit_id none in
          let other : Resident → Bool = λ x. not (x.id == id) in
          or_throw-ends IsOccupancyTrue Error.resident_not_found
            (find (is_resident ws id) (premises_of t s).residents)
            (λ r.
              throw_if (is_blank dto.full_name) Error.empty_name
              >> (check_unit ws other unit t >> write_resident user_id ws id dto t r))
            s h
            λ r found.
              throw_if-ends IsOccupancyTrue (is_blank dto.full_name) Error.empty_name
                (check_unit ws other unit t >> write_resident user_id ws id dto t r) s h
                λ _.
                  reading-ends IsOccupancyTrue (check_unit ws other unit t)
                    (λ _. write_resident user_id ws id dto t r) s
                    (check_unit_reads ws other unit t s) h
                    λ _ _. written-IsOccupancyTrue user_id dto t r found

  removed-IsOccupancyTrue :
      (t : PropertyTemplate) (r : Resident) (b : Bool)
      → find (is_resident ws id) (premises_of t s).residents ≡ some r
      → IsOccupancyTrue
          ((if b
              then change_resident t (is_resident ws id) archived
                >> (sync_unit_occupancy ws r.unit_id t >> pure Removal.was_archived)
              else remove_resident ws id t
                >> (sync_unit_occupancy ws r.unit_id t >> pure Removal.was_deleted))
            s).1
  removed-IsOccupancyTrue PropertyTemplate.apartment r true found =
      both _ (moved ws id s.apartment (h PropertyTemplate.apartment) r found archived refl)
        (h PropertyTemplate.estate)
  removed-IsOccupancyTrue PropertyTemplate.apartment r false found =
      both _ (gone ws id s.apartment (h PropertyTemplate.apartment) r found)
        (h PropertyTemplate.estate)
  removed-IsOccupancyTrue PropertyTemplate.estate r true found =
      both _ (h PropertyTemplate.apartment)
        (moved ws id s.estate (h PropertyTemplate.estate) r found archived refl)
  removed-IsOccupancyTrue PropertyTemplate.estate r false found =
      both _ (h PropertyTemplate.apartment)
        (gone ws id s.estate (h PropertyTemplate.estate) r found)

  -- Removing a resident, who is archived when there are requests of theirs.
  pub delete_resident-IsOccupancyTrue : IsOccupancyTrue (delete_resident ws id s).1
  unfolding delete_resident
  delete_resident-IsOccupancyTrue =
      reading-ends IsOccupancyTrue (assert_property_workspace ws) (delete_resident_in ws id) s
        (assert_reads ws s) h
        λ t _.
          or_throw-ends IsOccupancyTrue Error.resident_not_found
            (find (is_resident ws id) (premises_of t s).residents) (delete_found ws id t) s h
            λ r found.
              removed-IsOccupancyTrue t r
                (ltb 0 (length (filter_rows (is_request_of ws id) (premises_of t s).requests)))
                found

  forced-IsOccupancyTrue :
      (t : PropertyTemplate) (r : Resident)
      → find (is_resident ws id) (premises_of t s).residents ≡ some r
      → IsOccupancyTrue (force_found ws id t r s).1
  forced-IsOccupancyTrue PropertyTemplate.apartment r found =
      both (force_found ws id PropertyTemplate.apartment r s).1
        (gone ws id
          (record s.apartment {
            requests = delete_where (is_request_of ws id) s.apartment.requests;
          })
          (h PropertyTemplate.apartment) r found)
        (h PropertyTemplate.estate)
  forced-IsOccupancyTrue PropertyTemplate.estate r found =
      both (force_found ws id PropertyTemplate.estate r s).1 (h PropertyTemplate.apartment) (
        gone ws id
          (record s.estate { requests = delete_where (is_request_of ws id) s.estate.requests })
          (h PropertyTemplate.estate) r found)

  pub force_delete_resident-IsOccupancyTrue : IsOccupancyTrue (force_delete_resident ws id s).1
  unfolding force_delete_resident
  force_delete_resident-IsOccupancyTrue =
      reading-ends IsOccupancyTrue (assert_property_workspace ws) (force_delete_in ws id) s
        (assert_reads ws s) h
        λ t _.
          or_throw-ends IsOccupancyTrue Error.resident_not_found
            (find (is_resident ws id) (premises_of t s).residents) (force_found ws id t) s h
            λ r found. forced-IsOccupancyTrue t r found
