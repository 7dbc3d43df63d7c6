-- ===== src/Lib.antt =====
-- Extension Jobs: a local service that finds jobs, prepares applications, and submits them after
-- a person has approved them. This library models the parts that keep the state.
--
-- - Jobs: packages/shared/src/jobs.ts: `deduplicateJobs`, and in Jobs.Score `fingerprintJob`,
--   `normalizeJob` and `scoreJob`. Application: the records of packages/shared/src/domain.ts and
--   packages/shared/src/wuzzuf.ts, with `advance`, `terminal` and what `bindingHash` hashes.
-- - Workflow: the application states of packages/shared/src/domain.ts, the transition table and
--   `assertTransition` of packages/shared/src/validation.ts, the states of `advance` in
--   apps/orchestrator/src/wuzzuf-tool-service.ts. Workflow.Engine: the second table, that of
--   packages/workflow-engine/src/index.ts.
-- - Queue: the class `DurableQueue` of packages/persistence/src/queue.ts. A table is a list of rows,
--   an UPDATE maps the rows that meet its WHERE, `changes` counts them. Queue.Operations has what the
--   holder of a job and a canceller do; Queue.Trace runs any sequence of calls.
-- - Store: the tables of apps/orchestrator/src/store.ts: Store.Locks (`acquireLock`,
--   `releaseLock`), Store.Usage (`reserveCampaignApplication`), Store.Submissions (the tables
--   applications and submission_attempts), Store.Approvals (approval_requests and
--   submission_approvals, with the constraints of packages/persistence/migrations/001_core.sql),
--   Store.Idempotency (`beginIdempotent`, `finishIdempotent`, `clearIdempotent`).
-- - Connector: `WuzzufConnectorService` of apps/orchestrator/src/wuzzuf-tool-service.ts:
--   Connector.Approval (`requestSubmissionApproval`, `decideApproval`, `assertApproval`),
--   Connector.Submit and Connector.Click (`submitOnce`), Connector.Cancel (`cancel`),
--   Connector.Idempotent (`idempotent`, `idempotentSync`, `idempotentSubmission`), Connector.Queued
--   (`queued`, `waitForWorker`). Connector.Trace runs any interleaving
--   of the approvals, submissions and cancellations.
-- - Campaign: `runCampaign` of apps/orchestrator/src/service.ts. Campaign has the tables that it writes,
--   with `saveJob`, `createApplication` and `transition` of apps/orchestrator/src/store.ts, Campaign.Setting
--   the types of a run, Campaign.Run the run, cut where it waits for the source of the jobs, and
--   Campaign.Runs the table campaign_runs, Campaign.Scheduler the class `CampaignScheduler` of
--   apps/orchestrator/src/scheduler.ts.
-- - Policy: the registry of packages/site-policy-registry/src/index.ts. Policy.Configured has
--   `configureConnector` of apps/orchestrator/src/job-application-service.ts and the registry that a new
--   process builds from Store.Settings, the table connector_settings.
-- - Store.Boards: the tables of apps/orchestrator/src/store.ts that the dashboard writes, with the
--   versions of notes, saved views and preferences.
-- - Store.Clients: `enrollClient` and `authorizeClient` of apps/orchestrator/src/store.ts.
-- - Server: apps/orchestrator/src/server.ts. Server.Scopes has `requiredScope`, Server.Sessions the
--   classes `Sessions` and `RateLimiter`, Server.Authorization `authorize`, `authorizeSession` and the
--   test of the origin, Server.Entry the order of these guards before the routes, with
--   `serveDashboard`.
-- - Domain, Contracts, Json: the records of packages/shared/src/domain.ts, those of the schemas of
--   packages/shared-contracts/src/index.ts and dashboard.ts with the tests of their values, and JSON
--   values with `Number` of a text.
-- - Security: the sanitisers and the tests of urls of packages/security/src/index.ts.
-- - Validation: the readers and the friendly schedules of packages/shared/src/validation.ts.
-- - Profile: the answers and the edits of facts of packages/profile-engine/src/index.ts.
-- - Dashboard: apps/orchestrator/src/dashboard-api.ts. Dashboard.Sessions has the class
--   `DashboardSessions` and Cookies its cookie, Idempotent its wrapper `idempotent`, Values the
--   readers of a body, Paging the pages and their cursors, Content the
--   part of the store that the routes read and write, Jobs, Applications, Summary and Campaigns what
--   they compute, Handlers, Services, CampaignRoutes and Decisions the body of each route, Routes the
--   patterns in the order of the source, and Dispatch `handleDashboardRequest`, which is `handle`.
--
-- The workers claim jobs of the queue and report to it; the service takes the locks of the store
-- around what it does to an application, reads and writes the tables of the store, and moves the
-- application along the workflow. `submitOnce` waits for the browser twice, before and after its
-- click: it is cut there into parts, between which any other operation may run. The scheduler starts
-- a run of a campaign as a job of the queue; the run holds a lock, counts each application it selects
-- in the table of the daily usage, and leaves it waiting for an approval.
--
-- A time is a number of milliseconds and an argument, as are random ids; the ISO texts of the
-- source sort as the numbers do. A statement of SQL is one step; a transaction that is rolled
-- back leaves the tables as they were. A payload is the JSON text of the column. What the browser
-- answers is an argument of the step that waits for it. SHA-256 of a text, and of the JSON text
-- of a binding, is a parameter. Every loop of the source goes over a list and needs no fuel;
-- Dashboard.Paging.Walk reads a list page by page, on fuel that is one more than the number of
-- items.
--
-- A request of the dashboard is one step of `handle`, from its sessions and the content of the
-- store to both after it and a reply or what was thrown. The path is a list of segments after
-- /v1/dashboard/. The functions of JavaScript and Node that it calls are the record `Platform`,
-- the calls of the service that wait for a browser or for the source of jobs are the record `JobsApi`, and what
-- it reads elsewhere, such as the status of the browser, is the record `Surroundings`; the last
-- two are any functions. A decimal number is a record of a sign, digits and a scale.
--
-- The loop of a run does not wait, and is taken to happen at one time of one day; what
-- `Intl.DateTimeFormat` makes of a time is the record `Calendar`.
--
-- Not modelled: the bodies of the routes of the HTTP server, the pages of the dashboard, the browser
-- and its pages, language models, the files of resumes, and the packages that only forward to the
-- service. Of the dashboard the routes of resumes, timelines, artifacts, the chat and the event
-- stream stay out. Of the connector service the search, the score,
-- `prepareOnce` and `fillOnce` stay out: Connector.Trace has their writes of a record, with any
-- record, and of the approvals.
pub mod Common
pub mod Jobs
pub mod Application
pub mod Workflow
pub mod Queue
pub mod Policy
pub mod Contracts
pub mod Json
pub mod Domain
pub mod Security
pub mod Dashboard
pub mod Store
pub mod Campaign
pub mod Connector
pub mod Server
pub mod Validation
pub mod Profile
