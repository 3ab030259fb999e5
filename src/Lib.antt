-- ===== src/Lib.antt =====
-- Innovation Sandbox on AWS: the core of the server side code of the repository.
--
-- The program lends AWS accounts of a pool to users. A lease has a record in one DynamoDB table,
-- an account one in another; Organizations keeps the account in an organizational unit, and
-- Identity Center the access to it. The facade `InnovationSandbox` changes all of them, by calls
-- that may each throw, and announces what it did by events. Where two writes must stand or fall
-- together it runs them as a `Transaction`; where the access of principals changes it takes a lock
-- on the lease's record and asks another lambda to process the assignments. A lambda scans the
-- leases and sends the alerts that end or freeze them.
--
-- Which file models what (paths from the repository's root):
--   Types, Events, Auth: the data of source/shared/types (lease.ts, resource-lock.ts,
--     sandbox-account.ts), of source/common/events, and the users of
--     source/shared/utils/auth-utils.ts.
--   Outcome: the error classes, and calls that change a state and may throw.
--   Transaction: source/common/utils/transactions.ts (`begin_transaction`, `rollback_transaction`
--     and `complete` for `_beginTransaction`, `_rollbackTransaction` and `complete`).
--   LeaseLock: the lock conditions of source/common/data/lease/dynamo-lease-store.ts (`admits` for
--     `buildLockAcquisitionCondition`) with the intents of source/shared/types/lease.ts.
--   World: the tables, the calls that the services accepted, and the environment: which call
--     throws, the clock, and what the services answer. World/Triple is the logic in which the
--     operations are described, World/Within the one for what all of them keep.
--   Table, LeaseStore, AccountStore: dynamo-lease-store.ts and lease-store.ts of
--     source/common/data/lease, dynamo-sandbox-account-store.ts of
--     source/common/data/sandbox-account, and the moves of
--     source/common/isb-services/sandbox-ou-service.ts.
--   AssignmentLock: the first half of
--     source/common/isb-services/lease-assignment/lease-assignment.service.ts.
--   Sandbox and its children: source/common/innovation-sandbox.ts, one definition for each method
--     (`freeze_lease` for `freezeLease`, and so on). Sandbox/Effects treats all of them together.
--   Reconciliation: the second half of lease-assignment.service.ts (`resolveAssignmentAction`,
--     `processAssignment`) as it is used by
--     source/lambdas/assignment-worker/src/assignment-worker-handler.ts.
--   Processor: source/lambdas/assignment-processor/src/assignment-processor-handler.ts, with the
--     messages that source/infrastructure/lib/components/assignment-processing/step-function.ts
--     makes of its work items.
--   LeaseApi and its children: source/lambdas/api/leases/src/smithy/lease-operations.ts, one
--     definition for each operation (`freeze_lease_operation` for `freezeLease`, and so on).
--     LeaseApi/Validation is global-config-utils.ts and reporting-config-utils.ts of
--     source/common/data, LeaseApi/Views is `deriveAssignmentView` of lease-assignment.service.ts.
--   AccountApi: source/lambdas/api/accounts/src/smithy/account-operations.ts, but the listings and
--     `skipCooldown`.
--   Lifecycle: source/lambdas/account-management/account-lifecycle-management, the handlers of the
--     events that the other lambdas send.
--   Drift: source/lambdas/account-management/account-drift-monitoring, the comparison of the units
--     with the records of the accounts.
--   Paging: `stream` and `collect` of source/common/data/utils.ts.
--   Monitoring: `determineLeaseEvents` and its helpers in
--     source/lambdas/account-management/lease-monitoring/src/lease-monitoring-handler.ts.
--   System: invocations of the two APIs, the lifecycle handler, the drift monitoring, the
--     processor and the worker, one after the other, on the same tables.
--
-- Every loop of the modelled code runs over a list, so no fuel is needed; only `stream`, which asks
-- for pages until one has no token, has fuel that counts the pages, and one more than the pages
-- that are left is enough. Times are milliseconds and amounts natural numbers. The n-th call of a
-- service fails or not as the environment says, so a theorem about an operation is about every
-- combination of failures. What the zod schemas accept of the records that are written, of the
-- locks and of the lists of assignments is a parameter too, but for the status of an account; a
-- write that they refuse throws before its call. Bodies of requests are what their schemas have
-- accepted, and a record that the schemas of its table refuse is not modelled where it is read. Queries outside Paging
-- return all their pages at once.
--
-- Not modelled: concurrent calls of other lambdas between two calls of one operation, logging,
-- tracing and the retries of the AWS clients. Left out as pure input and output, generated code or
-- user interface: the frontend, the CDK stacks, the API model, the notification texts, the metrics.
-- Left for further work: the listings of leases and accounts, the other handlers of the API, the
-- cleanup and the blueprint workflows.
mod Common
mod Outcome
pub mod Types
pub mod Auth
pub mod Transaction
pub mod LeaseLock
pub mod Events
pub mod LeaseStore
pub mod AccountStore
pub mod AssignmentLock
pub mod Sandbox
pub mod Monitoring
pub mod World
mod Table
pub mod Processor
pub mod LeaseApi
pub mod AccountApi
pub mod System
pub mod Lifecycle
pub mod Paging
pub mod Drift
pub mod Reconciliation
