-- ===== src/Visitors/Access.antt =====
-- visitors/visitors.service.ts: how the handlers of visitor passes reach the tables, the users
-- and the messages. What the database generates (`id`, `token`) is an argument.
use tomafix_backend.Prelude.{
  ℕ, Bool, ◌&&◌, ◌||◌, List, [], ◌∷◌, ◌++◌, Option, none, some, Text, codes, is_empty, ◌==◌, nat_eq,
  list_eq, if◌then◌else◌, or_else, find, update_first, Action, ◌>>=◌, pure, gets, modify, or_throw,
}
use tomafix_backend.Billing.Plans.{TemplateType}
use tomafix_backend.Billing.Store.Enums.{MemberRole, role_eq}
use tomafix_backend.Visitors.Tables.{
  VisitorStatus, visitor_status_eq, Location, Visitor, Site, User, Message, Store, Error,
}

abbrev pub find_site : ℕ → Store → Option Site
find_site id s = find (λ w. w.id == id) s.sites

-- `getWorkspace`
abbrev pub get_workspace : ℕ → Action Store Error Site
get_workspace id = do found ← gets (find_site id); or_throw Error.workspace_not_found found

-- `visitorDelegate`: the table of a template, read and rewritten
abbrev pub visitors_of : TemplateType → Store → List Visitor
visitors_of TemplateType.estate s = s.estate_visitors
visitors_of TemplateType.office s = s.office_visitors
visitors_of TemplateType.apartment s = s.apartment_visitors

abbrev pub with_visitors : TemplateType → List Visitor → Store → Store
with_visitors TemplateType.estate rows s = record s { estate_visitors = rows }
with_visitors TemplateType.office rows s = record s { office_visitors = rows }
with_visitors TemplateType.apartment rows s = record s { apartment_visitors = rows }

-- `findFirst({ where: { id, workspaceId } })`
abbrev pub is_visitor : ℕ → ℕ → Visitor → Bool
is_visitor workspace_id id v = v.id == id && v.workspace_id == workspace_id

abbrev pub has_token : Text → Visitor → Bool
has_token token v = v.qr_token == token

-- `update({ where: { id: visitor.id }, data })`, of the row that `find` has just found
abbrev pub update_visitor :
    TemplateType → (Visitor → Bool) → (Visitor → Visitor) → Action Store Error (Unit {0})
update_visitor t p f = modify (λ s. with_visitors t (update_first p f (visitors_of t s)) s)

abbrev pub create_visitor_row : TemplateType → Visitor → Action Store Error (Unit {0})
create_visitor_row t v = modify (λ s. with_visitors t (visitors_of t s ++ v ∷ []) s)

abbrev pub send : Message → Action Store Error (Unit {0})
send m = modify (λ s. record s { outbox = s.outbox ++ m ∷ [] })

-- `x || null`, on a string that may be missing
abbrev pub or_null : Option Text → Option Text
or_null none = none
or_null (some t) = if is_empty t then none else some t

-- `user?.fullName || user?.email || null`
abbrev pub label_of : Option User → Option Text
label_of none = none
label_of (some u) = elim (or_null u.full_name) [ none ↦ or_null u.email | some n ↦ some n ]

abbrev pub find_user : Option ℕ → Store → Option User
find_user none s = none
find_user (some id) s = find (λ u. u.id == id) s.users

-- `… || 'Guard'`
abbrev pub guard_name : Option ℕ → Store → Text
guard_name scanner s = or_else (label_of (find_user scanner s)) (codes "Guard")

pub record VisitorDto : Type 0 where
  pub name : Text
  pub phone : Option Text
  pub email : Option Text
  pub purpose : Option Text
  pub unit_id : Option Text
  pub unit_label : Option Text
  pub area_id : Option Text
  pub area_name : Option Text
  pub valid_from : Option ℕ
  pub valid_until : Option ℕ
  pub notes : Option Text

abbrev pub location_fields : TemplateType → VisitorDto → Location
location_fields TemplateType.office dto = record {
  unit_id = none;
  unit_label = none;
  area_id = or_null dto.area_id;
  area_name = or_null dto.area_name;
}
location_fields _ dto = record {
  unit_id = or_null dto.unit_id;
  unit_label = or_null dto.unit_label;
  area_id = none;
  area_name = none;
}

abbrev pub invited : ℕ → ℕ → Text → Site → Option ℕ → Option Text → VisitorDto → Visitor
invited now id token site user_id inviter dto = record {
  id = id;
  workspace_id = site.id;
  invited_by_user_id = user_id;
  invited_by_name = inviter;
  name = dto.name;
  phone = or_null dto.phone;
  email = dto.email;
  purpose = or_null dto.purpose;
  location = location_fields site.template_type dto;
  valid_from = dto.valid_from;
  valid_until = dto.valid_until;
  notes = or_null dto.notes;
  status = VisitorStatus.expected;
  qr_token = token;
  checked_in_at = none;
  checked_in_by_name = none;
  checked_out_at = none;
  checked_out_by_name = none;
  created_at = now;
}

-- a message to an address that is there and not empty
abbrev pub send_to : (Text → Message) → Option Text → Action Store Error (Unit {0})
send_to message to = elim (or_null to) [ none ↦ pure tt | some address ↦ send (message address) ]

abbrev pub is_admin : MemberRole → Bool
is_admin role = role == MemberRole.owner_admin || role == MemberRole.manager

-- What the handlers below start with: the table of the workspace, and the visitor in it.
abbrev pub site_and_visitor : ℕ → ℕ → Action Store Error (TemplateType × Visitor)
site_and_visitor workspace_id id = do
  site ← get_workspace workspace_id
  found ← gets (λ s. find (is_visitor workspace_id id) (visitors_of site.template_type s))
  v ← or_throw Error.visitor_not_found found
  pure (site.template_type, v)

-- `findFirst`, then what the handler does with the row.
abbrev pub on_visitor :
    {A : Type 0} → ℕ → ℕ → (TemplateType → Visitor → Action Store Error A) → Action Store Error A
on_visitor workspace_id id f = site_and_visitor workspace_id id >>= λ found. f found.0 found.1
