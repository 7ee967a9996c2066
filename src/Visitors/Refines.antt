-- ===== src/Visitors/Refines.antt =====
-- The handlers refine the life of a pass: whatever is called, with whatever arguments, in whatever
-- order, every row of every table takes steps of that life, and new rows are honest.
use tomafix_backend.Prelude.{
  ℕ, ◌≡◌, refl, Bool, List, [], ◌∷◌, ◌++◌, Option, none, some, Text, nat_eq, list_eq, Action, ◌>>=◌,
  ◌>>◌, pure, gets, or_throw, find, update_first, Evolves, Evolves-refl, Evolves-append,
  Evolves-update_first, Evolves-trans,
}
use tomafix_backend.Billing.Plans.{TemplateType}
use tomafix_backend.Visitors.Tables.{visitor_status_eq, Visitor, Site, Message, Store, Error}
use tomafix_backend.Visitors.Access.{
  find_site, visitors_of, with_visitors, is_visitor, send, or_null, send_to, on_visitor,
}
use tomafix_backend.Visitors.Lifecycle.{Step, Steps, New, Born, here, next, Steps-trans}

-- Every table evolved by steps of the life of a pass.
abbrev pub Refined : Store → Store → Type 0
Refined s s' = (t : TemplateType) → Evolves Steps New (visitors_of t s) (visitors_of t s')

pub Refined-refl : (s : Store) → Refined s s
Refined-refl s t = Evolves-refl Steps New (λ v. here) (visitors_of t s)

pub Refined-trans : (s s' s'' : Store) → Refined s s' → Refined s' s'' → Refined s s''
Refined-trans s s' s'' h k t =
    Evolves-trans Steps New (λ u w born r. (born.0, born.1, Steps-trans born.2 r))
      (λ u v w r q. Steps-trans r q) (visitors_of t s) (visitors_of t s') (visitors_of t s'') (h t)
      (k t)

-- One table is written.
Refined-with_visitors :
    (s : Store) (t : TemplateType) (rows : List Visitor)
    → Evolves Steps New (visitors_of t s) rows
    → Refined s (with_visitors t rows s)
Refined-with_visitors s TemplateType.apartment rows h TemplateType.apartment = h
Refined-with_visitors s TemplateType.apartment rows h TemplateType.estate =
    Refined-refl s TemplateType.estate
Refined-with_visitors s TemplateType.apartment rows h TemplateType.office =
    Refined-refl s TemplateType.office
Refined-with_visitors s TemplateType.estate rows h TemplateType.apartment =
    Refined-refl s TemplateType.apartment
Refined-with_visitors s TemplateType.estate rows h TemplateType.estate = h
Refined-with_visitors s TemplateType.estate rows h TemplateType.office =
    Refined-refl s TemplateType.office
Refined-with_visitors s TemplateType.office rows h TemplateType.apartment =
    Refined-refl s TemplateType.apartment
Refined-with_visitors s TemplateType.office rows h TemplateType.estate =
    Refined-refl s TemplateType.estate
Refined-with_visitors s TemplateType.office rows h TemplateType.office = h

module _ (s : Store) (t : TemplateType) (p : Visitor → Bool) (f : Visitor → Visitor) (v : Visitor)
    (found : find p (visitors_of t s) ≡ some v) (step : Step v (f v)) where
  pub updated-Refined : Refined s (with_visitors t (update_first p f (visitors_of t s)) s)
  updated-Refined =
      Refined-with_visitors s t (update_first p f (visitors_of t s))
        (Evolves-update_first Steps New (λ v. here) p f (visitors_of t s) v found (next step here))

pub created-Refined :
    (s : Store) (t : TemplateType) (v : Visitor)
    → Born v
    → Refined s (with_visitors t (visitors_of t s ++ v ∷ []) s)
created-Refined s t v born =
    Refined-with_visitors s t (visitors_of t s ++ v ∷ [])
      (Evolves-append Steps New (λ v. here) (visitors_of t s) (v ∷ []) ((v, born, here), tt))

-- Messages leave the tables.
pub sent-Refined : (s s' : Store) (m : Message) → Refined s s' → Refined s (send m s').1
sent-Refined s s' m h TemplateType.apartment = h TemplateType.apartment
sent-Refined s s' m h TemplateType.estate = h TemplateType.estate
sent-Refined s s' m h TemplateType.office = h TemplateType.office

pub send_to-Refined :
    (s s' : Store) (message : Text → Message) (to : Option Text)
    → Refined s s'
    → Refined s (send_to message to s').1
send_to-Refined s s' message to h = go_on (or_null to)
  where
    go_on :
        (o : Option Text)
        → Refined s
            (elim o as (λ _. Action Store Error (Unit {0})) [
              | none ↦ pure tt
              | some address ↦ send (message address)
            ]
              s').1
    go_on none = h
    go_on (some address) = sent-Refined s s' (message address) h

pub send_to_then-Refined :
    {B : Type 0} (s s' : Store) (message : Text → Message) (to : Option Text)
    (k : Action Store Error B)
    → Refined s s'
    → ((t : Store) → Refined s t → Refined s (k t).1)
    → Refined s ((send_to message to >> k) s').1
send_to_then-Refined {B} s s' message to k h rest = go_on (or_null to)
  where
    go_on :
        (o : Option Text)
        → Refined s
            ((elim o as (λ _. Action Store Error (Unit {0})) [
              | none ↦ pure tt
              | some address ↦ send (message address)
            ]
                >> k)
              s').1
    go_on none = rest s' h
    go_on (some address) =
        rest (send (message address) s').1 (sent-Refined s s' (message address) h)

-- What the handlers of one pass do, once it is found.
module _ {B : Type 0} (P : Store → Type 0) (workspace_id id : ℕ)
    (f : TemplateType → Visitor → Action Store Error B) (s : Store) (same : P s)
    (k : (t : TemplateType) (v : Visitor)
      → find (is_visitor workspace_id id) (visitors_of t s) ≡ some v
      → P (f t v s).1) where
  site-ends :
      (o : Option Site)
      → P
          (((or_throw Error.workspace_not_found o >>= λ site.
                gets (λ s. find (is_visitor workspace_id id) (visitors_of site.template_type s))
                >>= λ found. or_throw Error.visitor_not_found found >>= λ v.
                    pure {A = TemplateType × Visitor} (site.template_type, v))
              >>= λ found. f found.0 found.1)
            s).1
  site-ends none = same
  site-ends (some site) =
      visitor-ends (find (is_visitor workspace_id id) (visitors_of site.template_type s)) refl
    where
      visitor-ends :
          (o : Option Visitor)
          → find (is_visitor workspace_id id) (visitors_of site.template_type s) ≡ o
          → P
              (((or_throw Error.visitor_not_found o >>= λ v.
                    pure {A = TemplateType × Visitor} (site.template_type, v))
                  >>= λ found. f found.0 found.1)
                s).1
      visitor-ends none e = same
      visitor-ends (some v) e = k site.template_type v e

  pub on_visitor-ends : P (on_visitor workspace_id id f s).1
  on_visitor-ends = site-ends (find_site workspace_id s)
