-- ===== src/Lib.antt =====
-- clickup-sync: a NestJS service that mirrors the tasks and tracked time of ClickUp into Postgres,
-- prices the time by the rates of its assignees, and serves the result to the users of an org.
--
-- The files and the code that they model:
--   Common        what all others share. A table is a list of rows; findFirst, findMany, count,
--                 updateMany and deleteMany are Common/Lists, and update and delete by a unique key
--                 reach one row. An asynchronous method is an `Action`: a function of the store that
--                 returns a value or an exception, and the store (Common/Results). What was written
--                 before an exception stays written, except in a transaction.
--   Auth/Store, Auth/Permissions, Auth/Users, Auth/Sessions
--                 src/auth: user.repository.ts, permissions.service.ts, users.service.ts,
--                 session.service.ts with its repository, token.service.ts, session-cleanup.service.ts.
--   Auth/Accounts, Auth/Invitations
--                 src/auth: auth.service.ts, invitation.service.ts with its repository.
--   Auth/Guard    src/auth/auth.guard.ts and roles.guard.ts, and how the mutating handlers of
--                 users.controller.ts stand behind them: `request` is one HTTP request, from the
--                 guards to the tables.
--   Rates         src/rates: Rates/Plan is rate-succession.ts, Rates/Table the repository over the
--                 table with the constraint of prisma/migrations/0017_assignee_rate_no_overlap, and
--                 Rates/Service the service with the queue of recalculations.
--   Cost          src/time-entries: cost-calculator.service.ts over the rows of Rates/Table, and
--                 cost-recalculation.service.ts (Cost/Recalculation) over a table of time entries.
--   Webhooks      src/webhooks, src/jobs, src/workers/clickup-event.processor.ts, and the retries of
--                 src/admin. Webhooks/Json is the JavaScript values of a payload, Webhooks/Parser
--                 webhook-parser.service.ts, Webhooks/Store the tables and the queues, Webhooks/Events
--                 the repository of the events and the controller, Webhooks/Worker the processor,
--                 Webhooks/DeadLetters the dead letters with their handlers, and Webhooks/Retry the
--                 retry of failed events and the guard of signatures. Webhooks/Steps is how they run
--                 together: deliveries, attempts of the workers, retries.
--   Sync          src/time-entries/time-entries.service.ts with its repository, and the writes of
--                 src/tasks/tasks.repository.ts: Sync/Store is the tables and the answers of ClickUp,
--                 Sync/Tasks and Sync/TimeEntries the repositories, Sync/Service persistEntries and the
--                 enqueueing of replacements, Sync/Handlers syncTaskTimeEntries and reconcileWindow,
--                 Sync/Replacement assignee-replacement.service.ts with what ClickUp holds beside it and
--                 the retries of its job. Sync/Batches is syncTasks and syncMissingParents,
--                 Sync/Reconciliation the jobs of src/workers/task-sync.processor.ts with
--                 task-reconciliation.service.ts.
--   Client        src/clickup/clickup.client.ts: Client/Requests is a request with its retries, Client/Pages
--                 the paging of a list, Client/Windows the slices of a window, Client/Streams the tasks of
--                 a space. The replies of ClickUp are functions from the number of the attempt, of the
--                 page, or from the window that is asked for.
--   Reports       src/reports/timesheet.assemble.ts (Reports/Timesheet): the rows of the database grouped
--                 by day and summed up. Maps and sets are Common/Groups, Array.sort is Common/Sorting.
--   Scheduler     src/sync/sync.scheduler.ts over the queue of backfills: Scheduler/Queue is about the
--                 live backfills, Scheduler/Rotation about the turns of the archived pass.
--   Budgets       countBusinessDays of src/budgets/budget-forecast.ts.
--   Health        src/clickup/webhook-health.service.ts: one run of the cron job in Health, the limits of
--                 its maps of timestamps in Health/Limits, registrations behind deletions in
--                 Health/Retentions.
--   Web           apps/web/src/lib/csv.ts, with a reader of RFC 4180 (Web/Csv/Reader) to state what a
--                 file means.
-- The other files of each directory are proofs about these, and Tests runs them on examples.
--
-- Choices of the model:
--   - An instant is the number of milliseconds since 1970, a date one at UTC midnight. A call reads
--     the clock once, where the code may read it two or three times.
--   - sha256, the hash of a password, toLowerCase, trim and the mail server come as parameters, of
--     which nothing is assumed; random tokens are arguments. Keys of new rows come as arguments, or
--     from the counter of the table. Comparing in constant time is comparing.
--   - Durations in hours are doubles; the rounded product of cents and hours is the parameter
--     `rounded_product`, of which nothing is assumed.
--   - The key `user|milliseconds` of the rate cache is the pair of both.
--   - A JSON number is kept as the text of String(n). Hashes, dates and serialisation of the platform
--     are the fields of `Platform`; what the database and Redis take is the fields of `Outside`. Of
--     both nothing is assumed but what a theorem names. The rows of events and dead letters stand in the order of their times.
--   - BullMQ hands a job to the worker of its queue, and puts one that throws back until its attempts
--     are used up; Webhooks/Steps states this as the steps of a worker. The queues are one list of
--     jobs; delays and priorities are not modelled.
--   - Calls run one after another. Two requests that interleave their statements are not modelled.
--   - The endless loop of the recalculation runs on fuel, one more than there are rows: a round that
--     goes on has a full batch. Cost/Recalculation/Batches proves that this ends the run. The loop of
--     countBusinessDays has fuel for one round for each day and one more, which Budgets/BusinessDays
--     proves enough. All other functions are structural.
-- Not modelled: the catalogue of lists, the log of the jobs,
-- the backfill, the other parts of budgets, reports, settings, the other administrative handlers and
-- the rest of the web application. Connections, configuration, logging and rendering are not modelled
-- because they are input and output.
pub mod Common
pub mod Auth
pub mod Budgets
pub mod Client
pub mod Cost
pub mod Health
pub mod Rates
pub mod Reports
pub mod Scheduler
pub mod Sync
pub mod Web
pub mod Webhooks
