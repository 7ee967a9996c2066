-- ===== src/Property/Contacts.antt =====
-- apartment/apartment.service.ts: `syncUserContactFromResident`; and `createTenantInvite` of
-- onboarding/onboarding.service.ts, as the handlers of residents call it,
-- without the token of the invite and its audit row, and with the e-mail that it waits for.
use tomafix_backend.Prelude.{
  ℕ, ◌+◌, ◌*◌, Bool, false, not, ◌&&◌, ◌||◌, List, [], ◌∷◌, ◌++◌, Option, none, some, Text, trim,
  lower, is_empty, ◌==◌, nat_eq, list_eq, if◌then◌else◌, ltb, leb, or_else, is_some, find,
  update_first, update_where, filter_rows, length, Action, ◌>>=◌, ◌>>◌, gets, modify, throw_if,
  throw, pure,
}
use tomafix_backend.Property.Tables.{unit_status_eq, User, Invite, Store, Error}

-- `data: { fullName, phone }`, of what is not empty
abbrev contact_of : Text → Option Text → User → User
contact_of name phone u = record u {
  full_name = if is_empty name then u.full_name else some name;
  phone = elim phone [ none ↦ u.phone | some p ↦ some p ];
}

abbrev pub has_email : Text → User → Bool
has_email email u = elim u.email [ none ↦ false | some e ↦ e == email ]

-- `phone, email: { not: email }`; a user without an email does not match.
abbrev has_phone_of_another : Text → Text → User → Bool
has_phone_of_another phone email u =
    elim u.phone [ none ↦ false | some p ↦ p == phone ]
    && elim u.email [ none ↦ false | some e ↦ not (e == email) ]

-- `syncUserContactFromResident`: the users afterwards
unfoldable pub user_contact_synced : ℕ → Option Text → Text → Option Text → List User → List User
user_contact_synced user_id email full_name phone users =
    let email = lower (trim (or_else email [])) in
    let name = trim full_name in
    let phone = trim (or_else phone []) in
    let other = find (has_phone_of_another phone email) users in
    let new_phone = if is_empty phone || is_some other then none else some phone in
    let unknown : User = record {
      id = user_id;
      full_name = none;
      phone = none;
      email = some email;
    } in
    if is_empty email || (is_empty name && not (is_some new_phone))
    then users
    else elim (find (has_email email) users) [
      | none ↦ users ++ contact_of name new_phone unknown ∷ []
      | some _ ↦ update_first (has_email email) (contact_of name new_phone) users
    ]

abbrev pub sync_user_contact : ℕ → Option Text → Text → Option Text → Action Store Error (Unit {0})
sync_user_contact user_id email full_name phone =
    modify (λ s. record s { users = user_contact_synced user_id email full_name phone s.users })

abbrev pub hour_ms : ℕ
hour_ms = 3600000

-- `createdAt > now - 1 hour`
abbrev pub sent_last_hour : ℕ → ℕ → Store → ℕ
sent_last_hour now workspace_id s = length (
    filter_rows (λ i. i.workspace_id == workspace_id && ltb now (i.created_at + hour_ms)) s.invites)

abbrev pub invite_limit : ℕ
invite_limit = 250

abbrev expired_now : ℕ → Invite → Invite
expired_now now i = record i { expires_at = now }

abbrev is_pending : ℕ → ℕ → Text → Invite → Bool
is_pending now workspace_id email i =
    i.workspace_id == workspace_id
    && i.email == email
    && not (is_some i.accepted_at)
    && ltb now i.expires_at

-- What becomes of the request that sends an e-mail: without an API key none is made; else the mail
-- service accepts it, answers that it does not, or is not reached.
pub data Delivery : Type 0 where
  no_api_key accepted not_accepted not_reached : Delivery

-- `sendEmailWithResend`
abbrev pub send_email_with_resend : Delivery → Action Store Error (Unit {0})
send_email_with_resend Delivery.no_api_key = pure tt
send_email_with_resend Delivery.accepted = pure tt
send_email_with_resend Delivery.not_accepted = throw Error.email_not_sent
send_email_with_resend Delivery.not_reached = throw Error.email_not_sent

-- `createTenantInvite`, without an actor, a role or a unit
abbrev pub create_tenant_invite : Delivery → ℕ → ℕ → Text → Action Store Error (Unit {0})
create_tenant_invite mail now workspace_id address = do
  sent ← gets (sent_last_hour now workspace_id)
  throw_if (leb invite_limit sent) Error.too_many_invites
  modify (λ s. record s {
    invites =
        update_where (is_pending now workspace_id (lower (trim address))) (expired_now now)
          s.invites
        ++ record {
          workspace_id = workspace_id;
          email = lower (trim address);
          created_at = now;
          expires_at = now + 48 * hour_ms;
          accepted_at = none;
        }
          ∷ [];
  })
  send_email_with_resend mail
