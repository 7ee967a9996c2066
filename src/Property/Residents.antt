-- ===== src/Property/Residents.antt =====
-- apartment/apartment.service.ts: `createResident`, `updateResident`, `deleteResident` and
-- `forceDeleteResident`. What the database generates (`id`, `user_id`) and the time of the call
-- (`now`) are arguments,
-- and so is what becomes of the e-mail of an invite (`mail`).
use tomafix_backend.Prelude.{
  ℕ, Bool, true, false, not, ◌&&◌, [], ◌∷◌, ◌++◌, Option, none, some, List, Text, trim, lower,
  is_empty, ◌==◌, nat_eq, list_eq, if◌then◌else◌, ltb, or_else, find, update_first, filter_rows,
  delete_where, delete_first, length, Action, ◌>>=◌, ◌>>◌, pure, gets, modify, throw_if, or_throw,
}
use tomafix_backend.Property.Tables.{
  User, Member, unit_status_eq, ResidentRole, Resident, Request, Store, Error,
}
use tomafix_backend.Property.Access.{
  PropertyTemplate, assert_property_workspace, premises_of, change, or_null, is_resident,
}
use tomafix_backend.Property.Units.{check_unit, sync_unit_occupancy}
use tomafix_backend.Property.Contacts.{Delivery, sync_user_contact, create_tenant_invite, has_email}

pub record ResidentDto : Type 0 where
  pub full_name : Text
  pub phone : Option Text
  pub email : Option Text
  pub unit_id : Option ℕ
  pub role : Option ResidentRole
  pub active : Option Bool

-- `x?.trim() || null`
abbrev pub trimmed : Option Text → Option Text
trimmed none = none
trimmed (some t) = or_null (some (trim t))

-- `x?.trim().toLowerCase() || null`
abbrev pub address : Option Text → Option Text
address none = none
address (some t) = or_null (some (lower (trim t)))

abbrev pub new_resident : ℕ → ℕ → ResidentDto → Resident
new_resident id workspace_id dto = record {
  id = id;
  workspace_id = workspace_id;
  unit_id = dto.unit_id;
  full_name = trim dto.full_name;
  phone = trimmed dto.phone;
  email = address dto.email;
  role = or_else dto.role ResidentRole.tenant;
  active = or_else dto.active true;
}

abbrev pub invite_resident : Delivery → ℕ → ℕ → Option Text → Action Store Error (Unit {0})
invite_resident mail now workspace_id none = pure tt
invite_resident mail now workspace_id (some email) =
    create_tenant_invite mail now workspace_id email

-- What `createResident` does once the checks have passed, in the order of the source.
abbrev pub admit_resident :
    Delivery → ℕ → ℕ → ℕ → Resident → PropertyTemplate → Action Store Error Resident
admit_resident mail now user_id workspace_id r t = do
  change t (λ p. record p { residents = p.residents ++ r ∷ [] })
  sync_user_contact user_id r.email r.full_name r.phone
  invite_resident mail now workspace_id r.email
  sync_unit_occupancy workspace_id r.unit_id t
  pure r

abbrev pub create_resident_in :
    Delivery → ℕ → ℕ → ℕ → ℕ → ResidentDto → PropertyTemplate → Action Store Error Resident
create_resident_in mail now id user_id workspace_id dto t =
    check_unit workspace_id (λ _. true) dto.unit_id t
    >> admit_resident mail now user_id workspace_id (new_resident id workspace_id dto) t

-- `createResident`
unfoldable pub create_resident :
    Delivery → ℕ → ℕ → ℕ → ℕ → ResidentDto → Action Store Error Resident
create_resident mail now id user_id workspace_id dto =
    assert_property_workspace workspace_id
    >>= create_resident_in mail now id user_id workspace_id dto

-- A field of a partial update is missing, or is what is written.
pub record ResidentEdit : Type 0 where
  pub full_name : Option Text
  pub phone : Option (Option Text)
  pub email : Option (Option Text)
  pub unit_id : Option (Option ℕ)
  pub role : Option ResidentRole
  pub active : Option Bool

abbrev pub edited_resident : ResidentEdit → Resident → Resident
edited_resident dto r = record r {
  full_name = elim dto.full_name [ none ↦ r.full_name | some name ↦ trim name ];
  email = elim dto.email [ none ↦ r.email | some email ↦ address email ];
  phone = elim dto.phone [ none ↦ r.phone | some phone ↦ trimmed phone ];
  unit_id = or_else dto.unit_id r.unit_id;
  role = or_else dto.role r.role;
  active = or_else dto.active r.active;
}

abbrev pub change_resident :
    PropertyTemplate → (Resident → Bool) → (Resident → Resident) → Action Store Error (Unit {0})
change_resident t p f = change t (λ q. record q { residents = update_first p f q.residents })

-- `updated.unitId && updated.unitId !== resident.unitId`
abbrev pub other_unit : Option ℕ → Option ℕ → Option ℕ
other_unit none old = none
other_unit (some new) none = some new
other_unit (some new) (some old) = if new == old then none else some new

abbrev pub write_resident :
    ℕ → ℕ → ℕ → ResidentEdit → PropertyTemplate → Resident → Action Store Error Resident
write_resident user_id workspace_id id dto t r = do
  let new = edited_resident dto r
  change_resident t (is_resident workspace_id id) (edited_resident dto)
  sync_user_contact user_id (elim new.email [ none ↦ r.email | some e ↦ some e ]) new.full_name
      new.phone
  sync_unit_occupancy workspace_id r.unit_id t
  sync_unit_occupancy workspace_id (other_unit new.unit_id r.unit_id) t
  pure new

-- `dto.fullName !== undefined && !dto.fullName.trim()`
abbrev pub is_blank : Option Text → Bool
is_blank none = false
is_blank (some name) = is_empty (trim name)

abbrev pub update_resident_in :
    ℕ → ℕ → ℕ → ResidentEdit → PropertyTemplate → Action Store Error Resident
update_resident_in user_id workspace_id id dto t = do
  found ← gets (λ s. find (is_resident workspace_id id) (premises_of t s).residents)
  r ← or_throw Error.resident_not_found found
  throw_if (is_blank dto.full_name) Error.empty_name
  check_unit workspace_id (λ x. not (x.id == id)) (or_else dto.unit_id none) t
  write_resident user_id workspace_id id dto t r

-- `updateResident`
unfoldable pub update_resident : ℕ → ℕ → ℕ → ResidentEdit → Action Store Error Resident
update_resident user_id workspace_id id dto =
    assert_property_workspace workspace_id >>= update_resident_in user_id workspace_id id dto

abbrev pub archived : Resident → Resident
archived r = record r { unit_id = none; active = false }

abbrev pub is_request_of : ℕ → ℕ → Request → Bool
is_request_of workspace_id id q = q.workspace_id == workspace_id && q.resident_id == id

abbrev pub remove_resident : ℕ → ℕ → PropertyTemplate → Action Store Error (Unit {0})
remove_resident workspace_id id t =
    change t (λ p. record p { residents = delete_first (is_resident workspace_id id) p.residents })

-- What `deleteResident` did.
pub data Removal : Type 0 where
  was_archived was_deleted : Removal

abbrev pub delete_found : ℕ → ℕ → PropertyTemplate → Resident → Action Store Error Removal
delete_found workspace_id id t r = do
  requests ←
      gets (λ s. length (filter_rows (is_request_of workspace_id id) (premises_of t s).requests))
  if ltb 0 requests
      then change_resident t (is_resident workspace_id id) archived
        >> (sync_unit_occupancy workspace_id r.unit_id t >> pure Removal.was_archived)
      else remove_resident workspace_id id t
        >> (sync_unit_occupancy workspace_id r.unit_id t >> pure Removal.was_deleted)

abbrev pub delete_resident_in : ℕ → ℕ → PropertyTemplate → Action Store Error Removal
delete_resident_in workspace_id id t = do
  found ← gets (λ s. find (is_resident workspace_id id) (premises_of t s).residents)
  r ← or_throw Error.resident_not_found found
  delete_found workspace_id id t r

-- `deleteResident`
unfoldable pub delete_resident : ℕ → ℕ → Action Store Error Removal
delete_resident workspace_id id =
    assert_property_workspace workspace_id >>= delete_resident_in workspace_id id

abbrev pub lowered : Option Text → Option Text
lowered none = none
lowered (some t) = some (lower t)

-- The memberships without those of the user that has the email, whatever the case of its letters.
abbrev pub members_without : ℕ → Option Text → List User → List Member → List Member
members_without workspace_id none users members = members
members_without workspace_id (some email) users members =
    elim (find (λ u. has_email (lower (trim email)) (record u { email = lowered u.email })) users) [
      | none ↦ members
      | some u ↦ delete_where (λ m. m.workspace_id == workspace_id && m.user_id == u.id) members
    ]

abbrev pub force_found : ℕ → ℕ → PropertyTemplate → Resident → Action Store Error (Unit {0})
force_found workspace_id id t r = do
  change t (λ p. record p { requests = delete_where (is_request_of workspace_id id) p.requests })
  remove_resident workspace_id id t
  sync_unit_occupancy workspace_id r.unit_id t
  modify (λ s. record s { members = members_without workspace_id r.email s.users s.members })

abbrev pub force_delete_in : ℕ → ℕ → PropertyTemplate → Action Store Error (Unit {0})
force_delete_in workspace_id id t = do
  found ← gets (λ s. find (is_resident workspace_id id) (premises_of t s).residents)
  r ← or_throw Error.resident_not_found found
  force_found workspace_id id t r

-- `forceDeleteResident`
unfoldable pub force_delete_resident : ℕ → ℕ → Action Store Error (Unit {0})
force_delete_resident workspace_id id =
    assert_property_workspace workspace_id >>= force_delete_in workspace_id id
