-- ===== src/Lib.antt =====
-- A verification library for the alchemist template, the Deno backend and web client that an app
-- is generated from. Paths below are from the root of the repository.
--
-- The program's parts. src/lib/roles.ts decides which role may do what. src/lib/events.ts is a
-- durable event log on four Postgres tables: services publish an event inside their own
-- transaction, a consumer on each pod claims due deliveries, runs their handlers outside any
-- transaction, and writes how they ended, and a reaper takes back what a dead pod held;
-- src/lib/event-signing.ts signs what crosses HTTP. src/services/credit.service.ts is a prepaid
-- ledger, which src/api/middleware/monetize.ts charges for metered routes.
-- src/services/invite.service.ts turns an emailed link, which is used once, into a membership.
-- src/services/email-outbox.service.ts queues outbound email, which the job runner sends and
-- retries; src/services/mailing/campaign.service.ts releases newsletters into it in warm-up
-- batches; src/services/scheduled-jobs.service.ts runs recurring jobs, whose handlers queue
-- emails, and src/jobs/runner.ts ticks through the three. src/lib/job-lock.ts keeps the other
-- periodic loops to one pod at a time, with a lock in Redis (src/lib/redis.ts).
-- src/services/import/parse.ts reads uploaded spreadsheets, and mapping.ts beside it says which
-- column fills which field. web/src/lib/route-pattern.ts tells the client which routes are
-- public.
--
-- Which file models what:
--   Import         src/services/import/parse.ts: parseCsv in Import/Csv, labelColumns in
--                  Import/Labels, trimGrid, detectHeaderRow and shapeGrid in Import/Grid; and
--                  resolveMapping of src/services/import/mapping.ts in Import/Mapping, and its
--                  identity index in Import/Identity
--   Invites        src/services/invite.service.ts: createInvite, listPendingInvites and revokeInvite in
--                  Invites/Service; resolveInviteByToken, acceptInvite and claimInvite in
--                  Invites/Accept; Invites/History has histories of their statements
--   Common/        helpers: tests on numbers, lists, text as code units, integers, results
--   Outbox         src/services/email-outbox.service.ts: enqueueEmail and cancelEmail in
--                  Outbox/Table, deliverDueEmails in Outbox/Deliver; Outbox/History has histories of
--                  callers and runners
--   Campaign       src/services/mailing/campaign.service.ts: create, edit and read in
--                  Campaign/Tables, start and snapshot in Campaign/Snapshot, pause, resume and cancel
--                  in Campaign/Control, the runner step in Campaign/Release and Campaign/Advance;
--                  Campaign/Life draws the life that the file's comment describes
--   Jobs           src/services/scheduled-jobs.service.ts over src/jobs/cron.ts (Jobs/Cron): the
--                  operations on schedules in Jobs/Service, the claim in Jobs/Claim, the run in
--                  Jobs/Run;
--                  Jobs/Tick is runJobsTick of src/jobs/runner.ts; Jobs/History has histories of
--                  callers and runners
--   JobLock        withJobLock of src/lib/job-lock.ts, over the lock functions of src/lib/redis.ts;
--                  JobLock/OnePod has its theorem
--   Signing        src/lib/event-signing.ts; Signing/Verified and Signing/Replay have its theorems
--   RoutePattern   web/src/lib/route-pattern.ts; RoutePattern/Segments has its theorem
--   Roles          src/lib/roles.ts; Roles/Permissions has its theorems
--   Credit         src/services/credit.service.ts: grant, debit, refund, getBalance on the tables of
--                  Credit/Tables; Credit/Charge is chargeCredits of src/api/middleware/monetize.ts;
--                  Credit/History has histories of calls
--   Events/Store   the tables of src/lib/events.ts and its statement forms
--   Events/Topic   TOPIC_PATTERN and registerEventHandler
--   Events/Publish publishEvent        Events/Claim   claimDeliveries
--   Events/Finish  completeDelivery, failDelivery, releaseClaims, replayDelivery,
--                  requeueStaleDeliveries, computeBackoffMs
--   Events/Reserve scopedIdempotencyKey, reserveIdempotencyKey
--   Events/Process processDelivery
--   Events/Sync    syncSubscriptionsFromRegistry (Events/Seen: its theorem)
--   Events/Retention sweepEventRetention (Events/Kept: its theorems)
--   Events/History the histories: any sequence of those calls by any number of consumers
--
-- A database transaction is one step on the tables, which are lists of rows. A call outside the
-- transaction (a handler, a webhook POST, a route's handler) is a parameter, and so are
-- generated ids, random numbers, clocks and the rows that another transaction has locked.
-- Exceptions are values of `Result`. Ids are natural numbers, since the code only compares them;
-- text is a list of UTF-16 code units, whose lowercase is that of the ASCII letters; times are
-- milliseconds.
--
-- Every loop is a structural recursion, except the printing of a decimal number, whose fuel n +
-- 1 is enough because each round divides by ten.
--
-- Not modelled: logging, Redis nudges, HTTP routing, rendering, cryptography and the third-party
-- libraries, which the models take as parameters where they use them, and the parts of the
-- program that are not named above.
pub mod Common
pub mod Campaign
pub mod Credit
pub mod Events
pub mod Import
pub mod Invites
pub mod JobLock
pub mod Jobs
pub mod Outbox
pub mod Roles
pub mod RoutePattern
pub mod Signing
