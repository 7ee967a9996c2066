-- ===== src/Visitors/Tests.antt =====
-- The theorems on visitor passes at one apartment house with one resident and one guest.
use tomafix_backend.Prelude.{
  arith, find, ◌⊎◌, ◌≡◌, ◌↔◌, refl, List, [], ◌∷◌, none, some, codes, err, ok, All,
}
use tomafix_backend.Billing.Plans.{TemplateType}
use tomafix_backend.Visitors.Tables.{VisitorStatus, Visitor, Site, User, Store, Error}
use tomafix_backend.Visitors.Access.{has_token, visitors_of, is_visitor, VisitorDto}
use tomafix_backend.Visitors.Scan.{Passage, admitted, released, lapsed, scan_pass}
use tomafix_backend.Visitors.Lifecycle.{come, go, here, next, IsHonest, Keeps, Steps-Sound}
use tomafix_backend.Visitors.Calls.{Call, after_all}
use tomafix_backend.Visitors.Refines.{Refined}
use tomafix_backend.Visitors.Histories.{after_all-Refined, after_all-IsHonest}
use tomafix_backend.Visitors.Gate.{Since, Until, scan_pass-came, scan_pass-late}

abbrev house : Site
house = record { id = 1; name = codes "House"; template_type = TemplateType.apartment }

abbrev resident : User
resident = record { id = 2; full_name = some (codes "Ama"); email = some (codes "ama@x.y") }

abbrev guest : Visitor
guest = record {
  id = 7;
  workspace_id = 1;
  invited_by_user_id = some 2;
  invited_by_name = some (codes "Ama");
  name = codes "Kofi";
  phone = none;
  email = none;
  purpose = none;
  location = record { unit_id = none; unit_label = none; area_id = none; area_name = none };
  valid_from = some 100;
  valid_until = some 900;
  notes = none;
  status = VisitorStatus.expected;
  qr_token = codes "tok";
  checked_in_at = none;
  checked_in_by_name = none;
  checked_out_at = none;
  checked_out_by_name = none;
  created_at = 50;
}

abbrev store_with : Visitor → Store
store_with v = record {
  sites = house ∷ [];
  users = resident ∷ [];
  apartment_visitors = v ∷ [];
  estate_visitors = [];
  office_visitors = [];
  outbox = [];
}

abbrev walk_in : VisitorDto
walk_in = record {
  name = codes "Esi";
  phone = none;
  email = none;
  purpose = none;
  unit_id = none;
  unit_label = none;
  area_id = none;
  area_name = none;
  valid_from = none;
  valid_until = none;
  notes = none;
}

-- The guest comes and goes by scans, another walks in, and the guest's pass is cancelled.
abbrev calls : List Call
calls =
    Call.scan 200 1 none (codes "https://x/visitor-pass/tok?a=b")
    ∷ Call.walk_in 250 8 (codes "tok2") 1 none walk_in
    ∷ Call.scan 300 1 none (codes "tok")
    ∷ Call.cancel 1 7
    ∷ []

after_all-Refined_example : Refined (store_with guest) (after_all calls (store_with guest))
after_all-Refined_example = after_all-Refined calls (store_with guest)

after_all-IsHonest_example :
    All IsHonest (visitors_of TemplateType.apartment (after_all calls (store_with guest)))
after_all-IsHonest_example =
    after_all-IsHonest calls (store_with guest) TemplateType.apartment ((refl, refl), tt)

abbrev inside : Visitor
inside = admitted 200 (codes "Guard") guest

abbrev gone : Visitor
gone = released 300 (codes "Guard") inside

Steps-Sound_example : IsHonest gone × Keeps guest gone
Steps-Sound_example =
    Steps-Sound guest gone
      (next (come 200 (codes "Guard") refl refl) (next (go 300 (codes "Guard") refl refl) here))
      (refl, refl)

scan_pass-came_example :
    ((scan_pass 200 1
        (codes "Guard")
        TemplateType.apartment
        (is_visitor 1 7)
        guest
        (store_with guest)).0
      ≡ ok (Passage.came (admitted 200 (codes "Guard") guest)))
    ↔ (guest.workspace_id ≡ 1)
      × (guest.status ≡ VisitorStatus.expected)
      × Since 200 (some 100)
      × Until 200 (some 900)
scan_pass-came_example =
    scan_pass-came 200 (codes "Guard") TemplateType.apartment (is_visitor 1 7) guest
      (store_with guest) 1

scan_pass-late_example :
    let (r, s') =
      scan_pass 901 1
        (codes "Guard")
        TemplateType.apartment
        (has_token (codes "tok"))
        inside
        (store_with inside) in
    (r ≡ err Error.pass_expired)
    × (find (has_token (codes "tok")) (visitors_of TemplateType.apartment s')
        ≡ some (record inside { status = VisitorStatus.expired }))
    × ((VisitorStatus.expired ≡ VisitorStatus.expired)
        ⊎ (VisitorStatus.expired ≡ VisitorStatus.cancelled))
    × ((lapsed inside).checked_out_at ≡ inside.checked_out_at)
scan_pass-late_example =
    scan_pass-late 901 1 900 (codes "Guard") (codes "tok") TemplateType.apartment inside
      (store_with inside) (lapsed inside) refl refl refl (omega arith) refl (omega arith) here
