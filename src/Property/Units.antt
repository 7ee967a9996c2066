-- ===== src/Property/Units.antt =====
-- apartment/apartment.service.ts: `syncUnitOccupancy`, and the checks of a unit that a resident is
-- given.
use tomafix_backend.Prelude.{
  ℕ, Bool, false, not, ◌&&◌, Option, none, some, ◌==◌, nat_eq, list_eq, if◌then◌else◌, ltb, is_some,
  find, update_first, filter_rows, length, Action, ◌>>=◌, ◌>>◌, pure, gets, throw_if,
}
use tomafix_backend.Property.Tables.{
  UnitStatus, unit_status_eq, Dwelling, Resident, Premises, Store, Error,
}
use tomafix_backend.Property.Access.{PropertyTemplate, premises_of, change}

abbrev pub is_unit : ℕ → ℕ → Dwelling → Bool
is_unit workspace_id id u = u.id == id && u.workspace_id == workspace_id

-- `where: { workspaceId, unitId, status: ACTIVE }`
abbrev pub lives_in : ℕ → ℕ → Resident → Bool
lives_in workspace_id id r =
    r.workspace_id == workspace_id && elim r.unit_id [ none ↦ false | some u ↦ u == id ] && r.active

-- `activeResidents > 0 ? OCCUPIED : VACANT`
abbrev pub status_for : ℕ → UnitStatus
status_for active = if ltb 0 active then UnitStatus.occupied else UnitStatus.vacant

abbrev pub with_status : UnitStatus → Dwelling → Dwelling
with_status status u = record u { status = status }

abbrev pub next_status : ℕ → ℕ → Premises → UnitStatus
next_status workspace_id id p =
    status_for (length (filter_rows (lives_in workspace_id id) p.residents))

-- An unknown unit is left, and so is one that has the status.
abbrev pub synced_found : ℕ → ℕ → Option Dwelling → Premises → Premises
synced_found workspace_id id none p = p
synced_found workspace_id id (some u) p =
    if u.status == next_status workspace_id id p then p else record p {
      units =
          update_first (is_unit workspace_id id) (with_status (next_status workspace_id id p))
            p.units;
    }

-- `syncUnitOccupancy`, of a unit that there may be
abbrev pub synced : ℕ → Option ℕ → Premises → Premises
synced workspace_id none p = p
synced workspace_id (some id) p =
    synced_found workspace_id id (find (is_unit workspace_id id) p.units) p

abbrev pub sync_unit_occupancy : ℕ → Option ℕ → PropertyTemplate → Action Store Error (Unit {0})
sync_unit_occupancy workspace_id unit_id t = change t (synced workspace_id unit_id)

-- The unit belongs to the workspace, and no other active resident has it.
abbrev pub check_unit :
    ℕ → (Resident → Bool) → Option ℕ → PropertyTemplate → Action Store Error (Unit {0})
check_unit workspace_id other none t = pure tt
check_unit workspace_id other (some id) t = do
  unit ← gets (λ s. find (is_unit workspace_id id) (premises_of t s).units)
  throw_if (not (is_some unit)) Error.unit_not_found
  taken ← gets (λ s. find (λ r. other r && lives_in workspace_id id r) (premises_of t s).residents)
  throw_if (is_some taken) Error.unit_taken
