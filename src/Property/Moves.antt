-- ===== src/Property/Moves.antt =====
-- A resident comes, moves, goes or changes: which units are then out of step, and that the calls of
-- `syncUnitOccupancy` that follow are enough.
use tomafix_backend.Prelude.{
  ℕ, ◌≡◌, refl, sym, subst, ◌∙◌, Bool, false, ◌&&◌, ◌||◌, List, [], ◌∷◌, ◌++◌, Option, none, some,
  ◌==◌, nat_eq, is_some, find, update_first, delete_first, Bool-cases, inl, inr, arith, All-map,
}
use tomafix_backend.Property.Tables.{UnitStatus, Dwelling, Resident, Premises}
use tomafix_backend.Property.Units.{lives_in, with_status, synced}
use tomafix_backend.Property.Residents.{other_unit}
use tomafix_backend.Property.Settled.{lived_in, FitsBut, IsSettled, is_of, synced-Fits}

lives_elsewhere :
    (r : Resident) (u : Dwelling)
    → is_of r.workspace_id r.unit_id u ≡ false
    → lives_in u.workspace_id u.id r ≡ false
lives_elsewhere r u h = go_on r.unit_id h
  where
    go_on :
        (o : Option ℕ)
        → is_of r.workspace_id o u ≡ false
        → (r.workspace_id == u.workspace_id
            && elim o [ none ↦ false | some id ↦ id == u.id ]
            && r.active)
          ≡ false
    go_on none h = ground arith
    go_on (some id) h = ground (
      arith,
      h,
      nat_eq.same_iff r.workspace_id u.workspace_id,
      nat_eq.same_iff u.workspace_id r.workspace_id,
      nat_eq.same_iff id u.id,
      nat_eq.same_iff u.id id,
    )

module _ (q : Resident → Bool) where
  some-append :
      (rs : List Resident) (r : Resident)
      → q r ≡ false
      → is_some (find q (rs ++ r ∷ [])) ≡ is_some (find q rs)
  some-append [] r h = rw h refl
  some-append (x ∷ rs) r h = ground (arith, some-append rs r h)

  some-update_first :
      (p : Resident → Bool) (f : Resident → Resident) (rs : List Resident) (r : Resident)
      → find p rs ≡ some r
      → q r ≡ false
      → q (f r) ≡ false
      → is_some (find q (update_first p f rs)) ≡ is_some (find q rs)
  some-update_first p f [] r e h k = refl
  some-update_first p f (x ∷ rs) r e h k = elim (Bool-cases (p x)) [
    | inl t ↦
        let same : r ≡ x = ground arith in
        let h' = subst (λ r. q r ≡ false) same h in
        let k' = subst (λ r. q (f r) ≡ false) same k in rw (t, h', k') refl
    | inr t ↦ let later = some-update_first p f rs r (rw t at e) h k in rw t (ground (arith, later))
  ]

  some-delete_first :
      (p : Resident → Bool) (rs : List Resident) (r : Resident)
      → find p rs ≡ some r
      → q r ≡ false
      → is_some (find q (delete_first p rs)) ≡ is_some (find q rs)
  some-delete_first p [] r e h = refl
  some-delete_first p (x ∷ rs) r e h = elim (Bool-cases (p x)) [
    | inl t ↦
        let same : r ≡ x = ground arith in
        let h' = subst (λ r. q r ≡ false) same h in rw (t, h') refl
    | inr t ↦ let later = some-delete_first p rs r (rw t at e) h in rw t (ground (arith, later))
  ]

-- What is lived in has changed in the excepted units only.
changed-FitsBut :
    (p : Premises) (rs : List Resident) (except : Dwelling → Bool)
    → IsSettled p
    → ((u : Dwelling)
        → except u ≡ false
        → lived_in u.workspace_id u.id rs ≡ lived_in u.workspace_id u.id p.residents)
    → FitsBut except (record p { residents = rs })
changed-FitsBut p rs except (keyed, fits) same =
    (keyed, All-map _ _ (λ u f clear. f ∙ sym (same u clear)) p.units fits)

settled_by_sync :
    (p : Premises) (ws : ℕ) (unit : Option ℕ)
    → FitsBut (is_of ws unit) p
    → IsSettled (synced ws unit p)
settled_by_sync p ws unit h =
    let (keyed, fits) = synced-Fits ws unit p (λ _. false) (λ _ _. refl) h in
    (keyed, All-map _ _ (λ u f. f refl) (synced ws unit p).units fits)

module _ (p : Premises) (h : IsSettled p) (r : Resident) where
  pub come-IsSettled :
      IsSettled (synced r.workspace_id r.unit_id (record p { residents = p.residents ++ r ∷ [] }))
  come-IsSettled =
      settled_by_sync (record p { residents = p.residents ++ r ∷ [] }) r.workspace_id r.unit_id
        (changed-FitsBut p (p.residents ++ r ∷ []) (is_of r.workspace_id r.unit_id) h λ u clear.
          some-append (lives_in u.workspace_id u.id) p.residents r (lives_elsewhere r u clear))

  module _ (key : Resident → Bool) (found : find key p.residents ≡ some r) where
    pub go-IsSettled :
        IsSettled
          (synced r.workspace_id r.unit_id (record p { residents = delete_first key p.residents }))
    go-IsSettled =
        settled_by_sync (record p { residents = delete_first key p.residents }) r.workspace_id
          r.unit_id
          (changed-FitsBut p (delete_first key p.residents) (is_of r.workspace_id r.unit_id) h
            λ u clear.
              some-delete_first (lives_in u.workspace_id u.id) key p.residents r found
                (lives_elsewhere r u clear))

    module _ (f : Resident → Resident) (stays : (f r).workspace_id ≡ r.workspace_id) where
      changed : Premises
      changed = record p { residents = update_first key f p.residents }

      both_clear :
          (u : Dwelling)
          → (is_of r.workspace_id (other_unit (f r).unit_id r.unit_id) u
              || is_of r.workspace_id r.unit_id u)
            ≡ false
          → (is_of r.workspace_id r.unit_id u ≡ false)
            × (is_of (f r).workspace_id (f r).unit_id u ≡ false)
      both_clear u clear = rw stays (go_on (f r).unit_id r.unit_id clear)
        where
          go_on :
              (new old : Option ℕ)
              → (is_of r.workspace_id (other_unit new old) u || is_of r.workspace_id old u) ≡ false
              → (is_of r.workspace_id old u ≡ false) × (is_of r.workspace_id new u ≡ false)
          go_on none none clear = (refl, refl)
          go_on none (some old) clear = (clear, refl)
          go_on (some new) none clear = ground (arith, clear)
          go_on (some new) (some old) clear = ground (arith, clear, nat_eq.same_iff new old)

      moved-FitsBut :
          FitsBut
            (λ u.
              is_of r.workspace_id (other_unit (f r).unit_id r.unit_id) u
              || is_of r.workspace_id r.unit_id u)
            changed
      unfolding changed
      moved-FitsBut = changed-FitsBut p (update_first key f p.residents) _ h λ u clear.
          let (old, new) = both_clear u clear in
          some-update_first (lives_in u.workspace_id u.id) key f p.residents r found
            (lives_elsewhere r u old) (lives_elsewhere (f r) u new)

      pub move-IsSettled : IsSettled (
          synced r.workspace_id (other_unit (f r).unit_id r.unit_id) (
            synced r.workspace_id r.unit_id
              (record p { residents = update_first key f p.residents })))
      unfolding changed
      move-IsSettled =
          settled_by_sync (synced r.workspace_id r.unit_id changed) r.workspace_id
            (other_unit (f r).unit_id r.unit_id)
            (synced-Fits r.workspace_id r.unit_id changed
              (is_of r.workspace_id (other_unit (f r).unit_id r.unit_id))
              (λ u status. still (other_unit (f r).unit_id r.unit_id) u status) moved-FitsBut)
        where
          still :
              (o : Option ℕ) (u : Dwelling) (status : UnitStatus)
              → is_of r.workspace_id o (with_status status u) ≡ is_of r.workspace_id o u
          still none u status = refl
          still (some id) u status = refl
