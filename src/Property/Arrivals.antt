-- ===== src/Property/Arrivals.antt =====
-- `createResident` and the marks of the units: what holds when it returns.
pub mod Strands
use tomafix_backend.Prelude.{
  ℕ, ◌≡◌, ◌≢◌, refl, subst, sym, ap, ◌∙◌, Bool, true, false, Option, none, some, Text, ◌==◌, nat_eq,
  find, find_holds, ltb, is_some, or_else, leb, List, [], ◌∷◌, ◌++◌, Result, ok, err, filter_rows,
  length, Action, ◌>>=◌, ◌>>◌, pure, throw_if, modify, arith, reading-gives, All-find,
  find-append_new, pair_eq, ◌+◌, ◌&&◌, >>=_ok, >>=_err,
}
use tomafix_backend.Property.Tables.{Dwelling, Invite, Resident, Premises, Store, Error}
use tomafix_backend.Property.Access.{
  PropertyTemplate, assert_property_workspace, premises_of, with_premises,
}
use tomafix_backend.Property.Units.{check_unit, synced, sync_unit_occupancy, is_unit, lives_in}
use tomafix_backend.Property.Residents.{
  ResidentDto, new_resident, admit_resident, create_resident_in, create_resident, invite_resident,
  address,
}
use tomafix_backend.Property.Contacts.{
  Delivery, send_email_with_resend, user_contact_synced, hour_ms, sent_last_hour, invite_limit,
}
use tomafix_backend.Property.Settled.{IsSettled}
use tomafix_backend.Property.Moves.{come-IsSettled}
use tomafix_backend.Property.Units.{lives_in}
use tomafix_backend.Property.Settled.{lived_in, Fits}
use tomafix_backend.Property.Occupancy.{IsOccupancyTrue, assert_reads, check_unit_reads, both}

-- Unless the invite was refused or its e-mail was not sent, the units are marked as they should be.
abbrev Settles : Result Error Resident × Store → Type 0
Settles out =
    out.0 ≢ err Error.too_many_invites → out.0 ≢ err Error.email_not_sent → IsOccupancyTrue out.1

-- The three ways in which an invite may end: nothing is written, or only rows of invites are.
data Invited (s : Store) : Result Error (Unit {0}) × Store → Type 0 where
  none_left : Invited s (err Error.too_many_invites, s)
  not_sent :
      (rows : List Invite) → Invited s (err Error.email_not_sent, record s { invites = rows })
  invited : (rows : List Invite) → Invited s (ok tt, record s { invites = rows })

invite_resident-Invited :
    (mail : Delivery) (now ws : ℕ) (email : Option Text) (s : Store)
    → Invited s (invite_resident mail now ws email s)
invite_resident-Invited mail now ws none s = invited s.invites
invite_resident-Invited mail now ws (some email) s =
    go_on mail _ (leb invite_limit (sent_last_hour now ws s))
  where
    go_on :
        (mail : Delivery) (rows : List Invite) (full : Bool)
        → Invited s (
            (throw_if full Error.too_many_invites
                >> (modify (λ s. record s { invites = rows }) >> send_email_with_resend mail))
              s)
    go_on mail rows true = none_left
    go_on Delivery.no_api_key rows false = invited rows
    go_on Delivery.accepted rows false = invited rows
    go_on Delivery.not_accepted rows false = not_sent rows
    go_on Delivery.not_reached rows false = not_sent rows

module _ (now ws : ℕ) (r : Resident) (s : Store) where
  then_synced : PropertyTemplate → Unit {0} → Action Store Error Resident
  then_synced t _ = sync_unit_occupancy ws r.unit_id t >> pure r

  synced_with_invites :
      (t : PropertyTemplate) (rows : List Invite)
      → IsOccupancyTrue (sync_unit_occupancy ws r.unit_id t s).1
      → IsOccupancyTrue (then_synced t tt (record s { invites = rows })).1
  unfolding then_synced
  synced_with_invites PropertyTemplate.apartment rows k =
      both _ (k PropertyTemplate.apartment) (k PropertyTemplate.estate)
  synced_with_invites PropertyTemplate.estate rows k =
      both _ (k PropertyTemplate.apartment) (k PropertyTemplate.estate)

  -- The invite, and then the mark: an error comes in between.
  Settles-after_invited :
      (t : PropertyTemplate) (m : Action Store Error (Unit {0}))
      → IsOccupancyTrue (sync_unit_occupancy ws r.unit_id t s).1
      → (out : Result Error (Unit {0}) × Store) → m s ≡ out
      → Invited s out
      → Settles ((m >>= then_synced t) s)
  Settles-after_invited t m k out e none_left =
      subst Settles (sym (>>=_err m (then_synced t) s e)) (λ ne _. absurd (ne refl))
  Settles-after_invited t m k out e (not_sent rows) =
      subst Settles (sym (>>=_err m (then_synced t) s e)) (λ _ ne. absurd (ne refl))
  Settles-after_invited t m k out e (invited rows) =
      subst Settles (sym (>>=_ok m (then_synced t) s e)) (λ _ _. synced_with_invites t rows k)

  Settles-after_invite :
      (t : PropertyTemplate) (mail : Delivery) (email : Option Text)
      → IsOccupancyTrue (sync_unit_occupancy ws r.unit_id t s).1
      → Settles ((invite_resident mail now ws email >>= then_synced t) s)
  Settles-after_invite t mail email k =
      Settles-after_invited t (invite_resident mail now ws email) k _ refl
        (invite_resident-Invited mail now ws email s)

-- The store once the row and the user are written.
arrived : ℕ → Resident → PropertyTemplate → Store → Store
arrived user_id r t s =
    let p = premises_of t s in
    let s' = with_premises t (record p { residents = p.residents ++ r ∷ [] }) s in
    record s' { users = user_contact_synced user_id r.email r.full_name r.phone s'.users }

module _ (mail : Delivery) (now user_id ws : ℕ) (s : Store) (h : IsOccupancyTrue s) where
  come_here :
      (p : Premises) (r : Resident)
      → r.workspace_id ≡ ws
      → IsSettled p
      → IsSettled (synced ws r.unit_id (record p { residents = p.residents ++ r ∷ [] }))
  come_here p r here_too k =
      subst (λ w. IsSettled (synced w r.unit_id (record p { residents = p.residents ++ r ∷ [] })))
        here_too (come-IsSettled p k r)

  arrives :
      (r : Resident) (t : PropertyTemplate)
      → r.workspace_id ≡ ws
      → Settles (admit_resident mail now user_id ws r t s)
  unfolding then_synced arrived
  arrives r PropertyTemplate.apartment here_too =
      Settles-after_invite now ws r (arrived user_id r PropertyTemplate.apartment s)
        PropertyTemplate.apartment mail r.email
        (both _ (come_here s.apartment r here_too (h PropertyTemplate.apartment))
          (h PropertyTemplate.estate))
  arrives r PropertyTemplate.estate here_too =
      Settles-after_invite now ws r (arrived user_id r PropertyTemplate.estate s)
        PropertyTemplate.estate mail r.email
        (both _ (h PropertyTemplate.apartment)
          (come_here s.estate r here_too (h PropertyTemplate.estate)))

  pub create_resident-IsOccupancyTrue :
      (id : ℕ) (dto : ResidentDto)
      → (create_resident mail now id user_id ws dto s).0 ≢ err Error.too_many_invites
      → (create_resident mail now id user_id ws dto s).0 ≢ err Error.email_not_sent
      → IsOccupancyTrue (create_resident mail now id user_id ws dto s).1
  unfolding create_resident
  create_resident-IsOccupancyTrue id dto =
      reading-gives Settles (assert_property_workspace ws)
        (create_resident_in mail now id user_id ws dto) s (assert_reads ws s) (λ _ _ _ _. h)
        λ t _.
          reading-gives Settles (check_unit ws (λ _. true) dto.unit_id t)
            (λ _. admit_resident mail now user_id ws (new_resident id ws dto) t) s
            (check_unit_reads ws (λ _. true) dto.unit_id t s) (λ _ _ _ _. h)
            λ _ _. arrives (new_resident id ws dto) t refl
