-- ===== src/Property/Access.antt =====
-- How the handlers of apartments and estates reach the tables (shared/workspace-boundary.ts and
-- the private methods of property/property.service.ts). What the database generates is an argument.
use tomafix_backend.Prelude.{
  ℕ, Bool, ◌&&◌, [], ◌∷◌, ◌++◌, Option, none, some, Text, codes, trim, lower, is_empty, ◌==◌,
  nat_eq, list_eq, if◌then◌else◌, or_else, find, Action, ◌>>=◌, pure, gets, modify, or_throw,
}
use tomafix_backend.Billing.Plans.{TemplateType}
use tomafix_backend.Billing.Store.Enums.{MemberRole}
use tomafix_backend.Property.Tables.{Resident, Site, User, Premises, Message, Store, Error}

-- `PropertyTemplate`
pub data PropertyTemplate : Type 0 where
  apartment estate : PropertyTemplate

abbrev property_template : TemplateType → Option PropertyTemplate
property_template TemplateType.apartment = some PropertyTemplate.apartment
property_template TemplateType.estate = some PropertyTemplate.estate
property_template TemplateType.office = none

-- `assertWorkspaceTemplate`, of the two templates
abbrev pub find_site : ℕ → Store → Option Site
find_site id s = find (λ w. w.id == id) s.sites

abbrev pub assert_property_workspace : ℕ → Action Store Error PropertyTemplate
assert_property_workspace id = do
  found ← gets (find_site id)
  site ← or_throw Error.workspace_not_found found
  or_throw Error.unsupported_template (property_template site.template_type)

-- The delegates: the tables of a template, read and rewritten.
abbrev pub premises_of : PropertyTemplate → Store → Premises
premises_of PropertyTemplate.apartment s = s.apartment
premises_of PropertyTemplate.estate s = s.estate

abbrev pub with_premises : PropertyTemplate → Premises → Store → Store
with_premises PropertyTemplate.apartment p s = record s { apartment = p }
with_premises PropertyTemplate.estate p s = record s { estate = p }

abbrev pub change : PropertyTemplate → (Premises → Premises) → Action Store Error (Unit {0})
change t f = modify (λ s. with_premises t (f (premises_of t s)) s)

-- `normalizeOptionalText`
unfoldable pub normalize_optional_text : Option Text → Option Text
normalize_optional_text none = none
normalize_optional_text (some t) = let t = trim t in if is_empty t then none else some t

-- `x || null`, on a string that may be missing
abbrev pub or_null : Option Text → Option Text
or_null none = none
or_null (some t) = if is_empty t then none else some t

abbrev pub find_user : ℕ → Store → Option User
find_user id s = find (λ u. u.id == id) s.users

-- `user?.fullName || user?.email || 'User'`
abbrev user_name : Option User → Text
user_name none = codes "User"
user_name (some u) = elim (or_null u.full_name) [
  | some name ↦ name
  | none ↦ or_else (or_null u.email) (codes "User")
]

-- `resolveSenderName`
unfoldable pub resolve_sender_name : Option ℕ → Option Text → Store → Text
resolve_sender_name user_id fallback s = elim (normalize_optional_text fallback) [
  | some name ↦ name
  | none ↦ elim user_id [ none ↦ codes "User" | some id ↦ user_name (find_user id s) ]
]

abbrev pub is_resident : ℕ → ℕ → Resident → Bool
is_resident workspace_id id r = r.id == id && r.workspace_id == workspace_id

-- `getResidentContext`
abbrev pub get_resident_context : ℕ → PropertyTemplate → ℕ → Action Store Error Resident
get_resident_context workspace_id t id = do
  found ← gets (λ s. find (is_resident workspace_id id) (premises_of t s).residents)
  or_throw Error.resident_not_found found

-- `equals: email, mode: 'insensitive'`
abbrev has_email : Text → Resident → Bool
has_email email r = elim r.email as (λ _. Bool) [
  | none ↦ Bool.false
  | some e ↦ lower e == lower email
]

abbrev resident_with_email : ℕ → PropertyTemplate → Text → Store → Option Resident
resident_with_email workspace_id t email s =
    if is_empty email
    then none
    else find (λ r. r.workspace_id == workspace_id && r.active && has_email email r)
        (premises_of t s).residents

-- `getResidentContextForActorUser`
unfoldable pub resident_of_user : ℕ → PropertyTemplate → Option ℕ → Store → Option Resident
resident_of_user workspace_id t none s = none
resident_of_user workspace_id t (some id) s = elim (find_user id s) [
  | none ↦ none
  | some u ↦ resident_with_email workspace_id t (lower (trim (or_else u.email []))) s
]

-- `resident.unit.estateId`, of the unit that the row includes
abbrev pub estate_of : PropertyTemplate → Resident → Store → Option ℕ
estate_of t r s = elim r.unit_id [
  | none ↦ none
  | some id ↦ elim (find (λ u. u.id == id) (premises_of t s).units) [
    | none ↦ none
    | some u ↦ u.estate_id
  ]
]

pub record Actor : Type 0 where
  pub user_id : Option ℕ
  pub role : Option MemberRole

abbrev pub send : Message → Action Store Error (Unit {0})
send m = modify (λ s. record s { outbox = s.outbox ++ m ∷ [] })

abbrev pub send_to : (Text → Message) → Option Text → Action Store Error (Unit {0})
send_to message to = elim (or_null to) [ none ↦ pure tt | some address ↦ send (message address) ]
