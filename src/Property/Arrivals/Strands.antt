-- ===== src/Property/Arrivals/Strands.antt =====
-- What `createResident` leaves behind when the invite fails after the row was written.
use tomafix_backend.Prelude.{
  ◌⊎◌, inl, inr, Bool-cases, Result, ℕ, ◌≡◌, refl, subst, sym, ap, ◌∙◌, true, none, some, Text,
  ◌==◌, nat_eq, find, find_holds, ltb, is_some, or_else, leb, List, [], ◌∷◌, ◌++◌, ok, err,
  filter_rows, length, ◌>>=◌, arith, All-find, find-append_new, pair_eq, ◌+◌, ◌&&◌, >>=_ok, >>=_err,
}
use tomafix_backend.Property.Tables.{Dwelling, Invite, Resident, Premises, Store, Error}
use tomafix_backend.Property.Access.{PropertyTemplate, assert_property_workspace, premises_of}
use tomafix_backend.Property.Units.{check_unit, is_unit, lives_in}
use tomafix_backend.Property.Residents.{
  ResidentDto, new_resident, admit_resident, create_resident_in, create_resident, invite_resident,
  address,
}
use tomafix_backend.Property.Contacts.{Delivery, hour_ms, sent_last_hour, invite_limit}
use tomafix_backend.Property.Settled.{IsSettled}
use tomafix_backend.Property.Units.{lives_in}
use tomafix_backend.Property.Settled.{lived_in, Fits}
use tomafix_backend.Property.Occupancy.{IsOccupancyTrue, assert_reads, check_unit_reads}
use tomafix_backend.Property.Arrivals.{arrived, then_synced}

-- The invite fails, when the row and the user are written already.
module _ (user_id : ℕ) (r : Resident) (s : Store) where
  arrived_invites : (t : PropertyTemplate) → (arrived user_id r t s).invites ≡ s.invites
  unfolding arrived
  arrived_invites PropertyTemplate.apartment = refl
  arrived_invites PropertyTemplate.estate = refl

  arrived_premises :
      (t : PropertyTemplate)
      → premises_of t (arrived user_id r t s)
        ≡ record (premises_of t s) { residents = (premises_of t s).residents ++ r ∷ [] }
  unfolding arrived
  arrived_premises PropertyTemplate.apartment = refl
  arrived_premises PropertyTemplate.estate = refl

premises_of-invites :
    (t : PropertyTemplate) (rows : List Invite) (s : Store)
    → premises_of t (record s { invites = rows }) ≡ premises_of t s
premises_of-invites PropertyTemplate.apartment rows s = refl
premises_of-invites PropertyTemplate.estate rows s = refl

-- The workspace has sent its invites of the hour, or the mail service does not take the e-mail.
abbrev pub Fails : Delivery → ℕ → ℕ → Store → Type 0
Fails mail now ws s =
    (leb invite_limit (sent_last_hour now ws s) ≡ true)
    ⊎ ((mail ≡ Delivery.not_accepted) ⊎ (mail ≡ Delivery.not_reached))

abbrev pub IsInviteError : Error → Type 0
IsInviteError e = (e ≡ Error.too_many_invites) ⊎ (e ≡ Error.email_not_sent)

-- An invite that fails throws one of the two, and writes at most rows of invites.
abbrev Stops : Store → Result Error (Unit {0}) × Store → Type 0
Stops s out =
    (e : Error) × (rows : List Invite) × (out ≡ (err e, record s { invites = rows }))
    × IsInviteError e

invite_resident-Stops :
    (mail : Delivery) (now ws : ℕ) (email : Text) (s : Store)
    → Fails mail now ws s
    → Stops s (invite_resident mail now ws (some email) s)
invite_resident-Stops mail now ws email s fails =
    elim (Bool-cases (leb invite_limit (sent_last_hour now ws s))) [
      | inl full ↦ rw full (Error.too_many_invites, s.invites, refl, inl refl)
      | inr room ↦ rw room (elim fails [
        | inl full ↦ absurd (cc (full, room))
        | inr (inl unsent) ↦ rw unsent (Error.email_not_sent, _, refl, inr refl)
        | inr (inr unsent) ↦ rw unsent (Error.email_not_sent, _, refl, inr refl)
      ])
    ]

was_free :
    (ws unit : ℕ) (t : PropertyTemplate) (s : Store)
    → (check_unit ws (λ _. true) (some unit) t s).0 ≡ ok tt
    → find (lives_in ws unit) (premises_of t s).residents ≡ none
was_free ws unit t s free = ground (arith, free)

-- A resident who has come without a mark.
unmarked :
    (ws unit : ℕ) (p : Premises) (u : Dwelling) (r : Resident)
    → IsSettled p
    → find (is_unit ws unit) p.units ≡ some u
    → find (lives_in ws unit) p.residents ≡ none
    → lives_in ws unit r ≡ true
    → ¬ IsSettled (record p { residents = p.residents ++ r ∷ [] })
unmarked ws unit p u r (_, fits) found free lives (_, fits') =
    let holds = find_holds (is_unit ws unit) p.units {x = u} found in
    let here_too : u.workspace_id ≡ ws = ground (arith, holds, nat_eq.same_iff u.workspace_id ws) in
    let key : u.id ≡ unit = ground (arith, holds, nat_eq.same_iff u.id unit) in
    let before = All-find (Fits p.residents) (is_unit ws unit) p.units {x = u} fits found in
    let after =
      All-find (Fits (p.residents ++ r ∷ [])) (is_unit ws unit) p.units {x = u} fits' found in
    let came = find-append_new (lives_in ws unit) p.residents r free in
    let e : lived_in ws unit p.residents ≡ lived_in ws unit (p.residents ++ r ∷ []) =
      rw (here_too, key) at (sym before ∙ after) in
    let came' : find (lives_in ws unit) (p.residents ++ r ∷ []) ≡ some r = cc (came, lives) in
    absurd (cc (ap is_some free, ap is_some came', e))

module _ (mail : Delivery) (now id user_id ws unit : ℕ) (dto : ResidentDto) (t : PropertyTemplate)
    (s : Store) (u : Dwelling) (h : IsOccupancyTrue s)
    (site : (assert_property_workspace ws s).0 ≡ ok t)
    (free : (check_unit ws (λ _. true) (some unit) t s).0 ≡ ok tt)
    (found : find (is_unit ws unit) (premises_of t s).units ≡ some u)
    (wants : dto.unit_id ≡ some unit) (active : or_else dto.active true ≡ true) (email : Text)
    (invites_them : address dto.email ≡ some email) (fails : Fails mail now ws s) where
  newcomer : Resident
  newcomer = new_resident id ws dto

  lives_here : lives_in ws unit newcomer ≡ true
  unfolding newcomer
  lives_here = rw (wants, active) (ground (arith, nat_eq.same_iff ws ws, nat_eq.same_iff unit unit))

  arrived-Fails : Fails mail now ws (arrived user_id newcomer t s)
  unfolding newcomer
  arrived-Fails =
      subst
        (λ (rows : List Invite).
          (leb invite_limit (
              length
                (filter_rows (λ i. i.workspace_id == ws && ltb now (i.created_at + hour_ms)) rows))
            ≡ true)
          ⊎ ((mail ≡ Delivery.not_accepted) ⊎ (mail ≡ Delivery.not_reached)))
        (sym (arrived_invites user_id newcomer s t)) fails

  refused_late :
      (e : Error) (s' : Store)
      → invite_resident mail now ws (some email) (arrived user_id newcomer t s) ≡ (err e, s')
      → (invite_resident mail now ws newcomer.email
            >>= then_synced now ws newcomer (arrived user_id newcomer t s) t)
          (arrived user_id newcomer t s)
        ≡ (err e, s')
  unfolding newcomer
  refused_late e s' stopped =
      >>=_err (invite_resident mail now ws newcomer.email)
        (then_synced now ws newcomer (arrived user_id newcomer t s) t)
        (arrived user_id newcomer t s)
        (subst (λ o. invite_resident mail now ws o (arrived user_id newcomer t s) ≡ (err e, s'))
          (sym invites_them) stopped)

  refusal :
      (e : Error) (s' : Store)
      → invite_resident mail now ws (some email) (arrived user_id newcomer t s) ≡ (err e, s')
      → create_resident mail now id user_id ws dto s ≡ (err e, s')
  unfolding create_resident then_synced arrived newcomer
  refusal e s' stopped =
      >>=_ok (assert_property_workspace ws) (create_resident_in mail now id user_id ws dto) s
        (pair_eq (assert_property_workspace ws s) site (assert_reads ws s))
      ∙ >>=_ok (check_unit ws (λ _. true) dto.unit_id t)
          (λ _. admit_resident mail now user_id ws newcomer t) s
          (subst (λ o. check_unit ws (λ _. true) o t s ≡ (ok tt, s)) (sym wants)
            (pair_eq (check_unit ws (λ _. true) (some unit) t s) free
              (check_unit_reads ws (λ _. true) (some unit) t s)))
      ∙ refused_late e s' stopped

  -- In a store where the units are marked as they should be, a resident with an email who is to be
  -- active in a free unit is created when the workspace has sent its invites of the hour or the
  -- mail service does not take the invite: the call throws one of the two errors, the row is written
  -- behind the residents that were there and says that they live in the unit, every unit keeps its
  -- mark, and so the unit is not marked as it should be.
  pub create_resident-strands :
      let (r, s') = create_resident mail now id user_id ws dto s in
      ((e : Error) × (r ≡ err e) × IsInviteError e)
      × ((premises_of t s').residents ≡ (premises_of t s).residents ++ new_resident id ws dto ∷ [])
      × (lives_in ws unit (new_resident id ws dto) ≡ true)
      × ((premises_of t s').units ≡ (premises_of t s).units)
      × (¬ IsOccupancyTrue s')
  unfolding newcomer
  create_resident-strands =
      let (e, rows, stopped, is_error) =
        invite_resident-Stops mail now ws email (arrived user_id newcomer t s) arrived-Fails in
      let thrown = refusal e (record (arrived user_id newcomer t s) { invites = rows }) stopped in
      let after : premises_of t (create_resident mail now id user_id ws dto s).1
          ≡ record (premises_of t s) { residents = (premises_of t s).residents ++ newcomer ∷ [] } =
        ap (λ out. premises_of t out.1) thrown
        ∙ premises_of-invites t rows (arrived user_id newcomer t s)
        ∙ arrived_premises user_id newcomer s t in
      (
        (e, ap (λ out. out.0) thrown, is_error),
        ap (λ p. p.residents) after,
        lives_here,
        ap (λ p. p.units) after,
        λ marked.
            unmarked ws unit (premises_of t s) u newcomer (h t) found (was_free ws unit t s free)
              lives_here (subst IsSettled after (marked t)),
      )
