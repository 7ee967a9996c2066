-- ===== src/Property/Tests.antt =====
-- The theorems on bookings and residents at one apartment house with a hall and one resident.
use tomafix_backend.Prelude.{
  inr, arith, ℕ, ◌≡◌, refl, true, false, List, [], ◌∷◌, none, some, codes, err, trim, lower,
}
use tomafix_backend.Billing.Plans.{TemplateType}
use tomafix_backend.Property.Tables.{
  UnitStatus, Dwelling, ResidentRole, Resident, Amenity, Booking, Invite, Premises, Store, Error,
}
use tomafix_backend.Property.Access.{
  PropertyTemplate, Actor, normalize_optional_text, resolve_sender_name, resident_of_user,
}
use tomafix_backend.Property.Bookings.{BookingDto, booked}
use tomafix_backend.Property.Disjoint.{IsDisjoint}
use tomafix_backend.Property.Calls.{
  Call, after_all, after_all-IsDisjoint, raced, one_by_one, raced-overlaps,
}
use tomafix_backend.Property.Contacts.{Delivery, user_contact_synced}
use tomafix_backend.Property.Residents.{ResidentDto, new_resident, create_resident, delete_resident}
use tomafix_backend.Property.Units.{lives_in}
use tomafix_backend.Property.Occupancy.{IsOccupancyTrue}
use tomafix_backend.Property.Arrivals.Strands.{IsInviteError, create_resident-strands}
use tomafix_backend.Property.ResidentCalls.{
  ResidentCall, store_after, done, call, Runs-IsOccupancyTrue,
}

abbrev flat : Dwelling
flat = record { id = 4; workspace_id = 1; estate_id = none; status = UnitStatus.vacant }

abbrev ama : Resident
ama = record {
  id = 3;
  workspace_id = 1;
  unit_id = none;
  full_name = codes "Ama";
  phone = none;
  email = none;
  role = ResidentRole.tenant;
  active = true;
}

abbrev hall : Amenity
hall = record {
  id = 5;
  workspace_id = 1;
  estate_id = none;
  fee_amount = none;
  requires_approval = true;
  is_active = true;
}

abbrev bare : Premises
bare = record { units = []; residents = []; amenities = []; bookings = []; requests = [] }

abbrev house_with : List Invite → Store
house_with invites = record {
  sites = record { id = 1; template_type = TemplateType.apartment } ∷ [];
  users = [];
  members = [];
  invites = invites;
  apartment = record bare { units = flat ∷ []; residents = ama ∷ []; amenities = hall ∷ [] };
  estate = bare;
  outbox = [];
}

abbrev house : Store
house = house_with []

abbrev desk : Actor
desk = record { user_id = none; role = none }

abbrev party : BookingDto
party = record {
  resident_id = some 3;
  amenity_id = 5;
  start_at = some 100;
  end_at = some 200;
  title = none;
  notes = none;
}

abbrev party_row : ℕ → Booking
party_row id =
    booked 50 id 1 PropertyTemplate.apartment desk party ama hall none 100 200 (codes "User")

house-IsDisjoint : IsDisjoint house
house-IsDisjoint PropertyTemplate.apartment = tt
house-IsDisjoint PropertyTemplate.estate = tt

-- Two requests for the same hours; the second is refused.
abbrev requests : List Call
requests = Call.create false 50 10 1 desk party ∷ Call.create false 60 11 1 desk party ∷ []

after_all-IsDisjoint_example : IsDisjoint (after_all requests house)
after_all-IsDisjoint_example = after_all-IsDisjoint requests house house-IsDisjoint

raced-overlaps_example :
    let s' = (raced false 50 10 11 1 desk desk party party PropertyTemplate.apartment house).1 in
    ((s'.apartment).bookings ≡ party_row 10 ∷ party_row 11 ∷ [])
    × (¬ IsDisjoint s')
    × IsDisjoint (
        after_all
          (one_by_one false 50 10 11 1 desk desk party party PropertyTemplate.apartment)
          house)
unfolding normalize_optional_text resolve_sender_name resident_of_user
raced-overlaps_example =
    raced-overlaps false 50 10 11 1 desk desk party party PropertyTemplate.apartment (party_row 10)
      (party_row 11) house refl refl (λ e. omega (arith, e)) refl refl house-IsDisjoint refl

house-IsOccupancyTrue : (invites : List Invite) → IsOccupancyTrue (house_with invites)
house-IsOccupancyTrue invites PropertyTemplate.apartment = ((tt, tt), (refl, tt))
house-IsOccupancyTrue invites PropertyTemplate.estate = (tt, tt)

abbrev newcomer : ResidentDto
newcomer = record {
  full_name = codes "Kofi";
  phone = none;
  email = some (codes "k@x.y");
  unit_id = some 4;
  role = none;
  active = none;
}

abbrev moves : List ResidentCall
moves = ResidentCall.create Delivery.accepted 1000 6 20 1 newcomer ∷ ResidentCall.remove 1 6 ∷ []

abbrev moved_in : Store
moved_in = store_after (ResidentCall.create Delivery.accepted 1000 6 20 1 newcomer) house

abbrev moved_out : Store
moved_out = store_after (ResidentCall.remove 1 6) moved_in

Runs-IsOccupancyTrue_example : IsOccupancyTrue moved_out
unfolding create_resident delete_resident user_contact_synced trim lower
Runs-IsOccupancyTrue_example =
    Runs-IsOccupancyTrue moves house moved_out
      (call (λ e. cc e) (λ e. cc e) (call (λ e. cc e) (λ e. cc e) done)) (house-IsOccupancyTrue [])

create_resident-strands_example :
    let (r, s') = create_resident Delivery.not_reached 1000 6 20 1 newcomer house in
    ((e : Error) × (r ≡ err e) × IsInviteError e)
    × ((s'.apartment).residents ≡ ama ∷ new_resident 6 1 newcomer ∷ [])
    × (lives_in 1 4 (new_resident 6 1 newcomer) ≡ true)
    × ((s'.apartment).units ≡ flat ∷ [])
    × (¬ IsOccupancyTrue s')
unfolding trim lower
create_resident-strands_example =
    create_resident-strands Delivery.not_reached 1000 6 20 1 4 newcomer PropertyTemplate.apartment
      house flat (house-IsOccupancyTrue []) refl refl refl refl refl (codes "k@x.y") refl
      (inr (inr refl))
