-- ===== src/Lib.antt =====
-- Verification library of the tomafix backend: billing, access to a workspace, visitor passes,
-- bookings of amenities, the residents of units, and logins by a one-time code.
--
-- Billing (src/billing, src/types/billing.ts) sells plans to workspaces and enforces them. A
-- checkout makes a payment; a webhook, the callback page or the mock confirmation settles it, which
-- activates the workspace; a sweep and a reconciliation move the status of workspaces that do not
-- pay; the entitlements service and the guard of the routes read plan, overrides and usage. Access
-- (src/auth) decides who enters a workspace, by role, permission and the state of billing.
--
--   Billing/Plans         src/billing/planConfig.ts: PLAN_MAP and its template overrides,
--                         resolvePlanName, assertPlanExists, getEntitlements
--   Billing/Plans/Overrides  applyWorkspaceOverrides of the same file
--   Billing/Store         the tables of prisma/schema.prisma that these services use, the cache of
--                         src/billing/cache.ts and the exceptions, as one record `Store`
--   Billing/Status        assertBillingTransition, workspaceStatusFor, setBillingStatus,
--                         retryLatestPayment and runDunningSweep of src/billing/billing.service.ts
--   Billing/Entitlements  cacheGet, cacheSet and getWorkspaceEntitlements of src/billing/service.ts
--   Billing/Gate          the EntitlementsGuard of src/billing/guards.ts
--   Billing/Checkout      initPaystackPayment, initMockPayment and changeWorkspacePlan
--   Billing/Payments      finalizeSuccessfulPayment and confirmMockPayment; Payments/Columns says
--                         which columns a settled payment leaves, apart from the code
--   Billing/Webhooks      handlePaystackWebhook, replayFailedWebhook, verifyAndActivatePayment and
--                         cancelWorkspaceSubscription
--   Billing/Reconcile     reconcileWorkspaceBilling
--   Billing/Config        src/billing/paystack.config.ts and src/billing/runtime-billing-env.guard.ts
--   Access/Permissions    src/auth/permissions.ts
--   Access/Guard          src/auth/workspace-access.guard.ts, and assertWorkspaceAccess of
--                         src/auth/auth.service.ts
--   Visitors              src/visitors/visitors.service.ts: Visitors/Token reads what a scanner
--                         saw, Visitors/Scan is scanVisitor, manualCheckIn and manualCheckOut,
--                         Visitors/Passes the other handlers, Visitors/Calls one type of all their
--                         calls. Visitors/Lifecycle is the life of a pass as a step relation,
--                         Visitors/Refines and Visitors/Runs relate each handler to it, and
--                         Visitors/Histories whole sequences of calls; Visitors/Gate is about who
--                         is let in
--   Property/Access       src/shared/workspace-boundary.ts and the look-ups of
--                         src/property/property.service.ts; Property/Tables has the tables, once for
--                         apartments and once for estates
--   Property/Bookings     createAmenityBooking of that service; Property/Rebookings is
--                         updateAmenityBooking, and Property/Calls has sequences of the two and a
--                         run of two at once
--   Property/Residents    createResident, updateResident, deleteResident and forceDeleteResident of
--                         src/apartment/apartment.service.ts; Property/Units is syncUnitOccupancy,
--                         Property/Contacts is syncUserContactFromResident, with createTenantInvite
--                         and sendEmailWithResend of src/onboarding/onboarding.service.ts
--   Property/Disjoint, Created and Edited hold the lemmas that Property/Calls applies;
--                         Property/Settled, Moves, Occupancy and Arrivals those that
--                         Property/ResidentCalls applies;
--                         Property/Arrivals/Strands is about an invite that fails
--   Login                 sendLoginOtp and verifyLoginOtp of src/auth/auth.service.ts; Login/Laws is
--                         about one login, Login/Guesses about a sequence of guesses, and
--                         Login/Tokens is signToken, verifyToken and assertTokenNotRevoked
--   Prelude               tests, texts, tables as lists, and handlers that the others share
--
-- A handler is a function from the store to a result and the store after it; an exception keeps
-- what was written before it, and a transaction takes it back. The steps of a handler follow one
-- another without steps of another handler in between, but for the run of two bookings at once. Ids
-- are numbers that are only compared, times are milliseconds, money is in pesewas; all are natural
-- numbers, as the columns are. A text is the list of its code units, and case conversion is that of
-- ASCII. The loops are over lists (the tables, the three tries of the callback, at most 500 pending
-- payments), so there is no fuel. The time that a handler reads, the HMAC, the parser of URLs and
-- the answers of Paystack are arguments, and so are scrypt, the encoding of a token and what is
-- drawn at random.
--
-- A primary key is unique, so the row that an update names is the row that was found; a date that
-- does not parse is a missing one; the ids and tokens that the database generates are arguments. A
-- message to a visitor or about a booking is put in an outbox, since the code catches its failure or
-- does not wait for it; the two e-mails that a handler awaits without a catch, that of an invite of
-- a resident and that of resendPass, may fail, and what becomes of them is an argument. The text of
-- a message is not modelled, nor are the token and the audit row of an invite. A status that is
-- given to updateAmenityBooking is one of the enumeration, as the database requires.
--
-- Not modelled: the database, the network and the wiring of NestJS, which are not code of the
-- repository; the reports and the seeding of plans, which change no workspace; lists of passes and
-- bookings, which are reads; and the services of offices, onboarding, charges, requests and
-- administration, which stand apart.
pub mod Prelude
pub mod Access
pub mod Billing
pub mod Visitors
pub mod Property
pub mod Login
