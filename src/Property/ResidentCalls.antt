-- ===== src/Property/ResidentCalls.antt =====
-- The calls of apartment/apartment.service.ts that write residents, as one type.
use tomafix_backend.Prelude.{ℕ, ◌≢◌, List, [], ◌∷◌, Option, none, some, Result, ok, err, ap}
use tomafix_backend.Property.Tables.{Store, Error}
use tomafix_backend.Property.Contacts.{Delivery}
use tomafix_backend.Property.Residents.{
  ResidentDto, create_resident, ResidentEdit, update_resident, delete_resident,
  force_delete_resident,
}
use tomafix_backend.Property.Occupancy.{
  IsOccupancyTrue, update_resident-IsOccupancyTrue, delete_resident-IsOccupancyTrue,
  force_delete_resident-IsOccupancyTrue,
}
use tomafix_backend.Property.Arrivals.{create_resident-IsOccupancyTrue}

pub data ResidentCall : Type 0 where
  create : Delivery → ℕ → ℕ → ℕ → ℕ → ResidentDto → ResidentCall
  update : ℕ → ℕ → ℕ → ResidentEdit → ResidentCall
  remove : ℕ → ℕ → ResidentCall
  remove_by_force : ℕ → ℕ → ResidentCall

-- The store after a call, whether it returned or threw, and what it threw.
abbrev pub store_after : ResidentCall → Store → Store
store_after (ResidentCall.create mail now id user_id ws dto) s =
    (create_resident mail now id user_id ws dto s).1
store_after (ResidentCall.update user_id ws id dto) s = (update_resident user_id ws id dto s).1
store_after (ResidentCall.remove ws id) s = (delete_resident ws id s).1
store_after (ResidentCall.remove_by_force ws id) s = (force_delete_resident ws id s).1

abbrev error_in : {A : Type 0} → Result Error A → Option Error
error_in (ok a) = none
error_in (err e) = some e

abbrev pub thrown_by : ResidentCall → Store → Option Error
thrown_by (ResidentCall.create mail now id user_id ws dto) s =
    error_in (create_resident mail now id user_id ws dto s).0
thrown_by (ResidentCall.update user_id ws id dto) s =
    error_in (update_resident user_id ws id dto s).0
thrown_by (ResidentCall.remove ws id) s = error_in (delete_resident ws id s).0
thrown_by (ResidentCall.remove_by_force ws id) s = error_in (force_delete_resident ws id s).0

-- A sequence of calls in none of which an invite is refused or its e-mail not sent.
pub data Runs : List ResidentCall → Store → Store → Type 0 where
  done : {s : Store} → Runs [] s s
  call :
      {c : ResidentCall} {cs : List ResidentCall} {s s' : Store}
      → thrown_by c s ≢ some Error.too_many_invites
      → thrown_by c s ≢ some Error.email_not_sent
      → Runs cs (store_after c s) s'
      → Runs (c ∷ cs) s s'

store_after-IsOccupancyTrue :
    (c : ResidentCall) (s : Store)
    → IsOccupancyTrue s
    → thrown_by c s ≢ some Error.too_many_invites
    → thrown_by c s ≢ some Error.email_not_sent
    → IsOccupancyTrue (store_after c s)
store_after-IsOccupancyTrue (ResidentCall.create mail now id user_id ws dto) s h fine sent =
    create_resident-IsOccupancyTrue mail now user_id ws s h id dto (λ e. fine (ap error_in e))
      (λ e. sent (ap error_in e))
store_after-IsOccupancyTrue (ResidentCall.update user_id ws id dto) s h fine sent =
    update_resident-IsOccupancyTrue ws id s h user_id dto
store_after-IsOccupancyTrue (ResidentCall.remove ws id) s h fine sent =
    delete_resident-IsOccupancyTrue ws id s h
store_after-IsOccupancyTrue (ResidentCall.remove_by_force ws id) s h fine sent =
    force_delete_resident-IsOccupancyTrue ws id s h

-- Over any sequence of calls that create, change, remove or remove by force a resident, whatever
-- their arguments and whether they return or throw, a unit is marked as occupied exactly when an
-- active resident has it, if this held before and no call throws because there are too many invites
-- or because the e-mail of an invite is not sent.
pub Runs-IsOccupancyTrue :
    (cs : List ResidentCall) (s s' : Store) → Runs cs s s' → IsOccupancyTrue s → IsOccupancyTrue s'
Runs-IsOccupancyTrue [] s s' done h = h
Runs-IsOccupancyTrue (c ∷ cs) s s' (call fine sent rest) h =
    Runs-IsOccupancyTrue cs (store_after c s) s' rest (store_after-IsOccupancyTrue c s h fine sent)
