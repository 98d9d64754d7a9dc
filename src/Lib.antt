-- ===== src/Lib.antt =====
-- A verification of the core logic of the agent runtime: the aggregates of internal/kernel and
-- their repository, the log of internal/events, the risk policy of internal/policy, the approvals
-- and capability grants of internal/approval, the scheduled jobs of internal/scheduler, the
-- streamed answers of pkg/providerapi with the hub of internal/modelstream, the tool broker of
-- internal/tools, the decisions of a user on calls of tools in internal/toolpermission, the control
-- of tasks in internal/taskcontrol, the packing of a provider's context in internal/contextpack,
-- and the inbox and loop detection of internal/agent.
--
-- How the parts interact. A task of a session is created and moved by the kernel's state machines;
-- a plan with its steps authorises a run. The repository stores the aggregates, each at a version
-- that a writer must name, and appends an event to the log for every change. A grant is issued
-- where an approval covers the stored plan and one of its steps has the scope. Every call of a tool
-- passes through the broker: the policy evaluator decides on the risk level of the tool, and in one
-- transaction the call consumes one use of a capability grant that it names and is stored as
-- running; then the tool runs, and a second transaction stores how it ended. A call that the user
-- is asked about waits for the decision, which issues a grant of its own, and is tried again once.
-- Each request to a model provider carries a view of the transcript: the packer repairs the tool
-- protocol of the view, trims long bodies, clears old tool results and drops the oldest turns until
-- the view fits its token budget. While a turn runs, the runner claims the messages that were
-- queued for its session, and looks for a model that repeats itself. The events of a streamed
-- answer are collected into a response, and the hub passes them on to subscribers. The scheduler
-- claims the jobs that are due under leases, each of which an acknowledgement settles.
--
-- Files and code:
-- - Common: texts, Boolean tests, lists, sets of texts, fixed-width integers, decimal digits.
-- - Kernel: internal/kernel/model.go, one module for each aggregate (Session, Task, Plan with its
--   steps, Run). A method that mutates its receiver returns the new record and the error, if any.
--   Lifecycle, Finish, Steps and Stance hold the theorems. Store holds the repository of tasks,
--   internal/kernel/repository_task.go and repository.go; Histories, Updates, Follows and Versions
--   hold its theorems. Metadata and Sessions hold the repository of sessions,
--   internal/kernel/repository_session.go; Bindings, Lasting and Writes hold its
--   theorem, in which the two statements of a change of metadata are steps of their own.
-- - Events: internal/events. Store holds Append and the queries on the log, Upcast the chain of
--   upcasters; Order, Pages, Retry and Chain hold the theorems.
-- - Scheduler: internal/scheduler/store.go. Jobs holds creation and changes of state, Advance the
--   next time of a job, Claims and Expiry ClaimDue, Settle Acknowledge; Bounded, Due, Attempts,
--   History and Once hold the theorems.
-- - Permission: internal/toolpermission. Trust holds trust.go, Requests store.go, Waiter wait.go,
--   and Scopes, Choices and Decide service.go; Issues, Paths, Marks, Final and Delivered hold the
--   theorems, and so does Trust.
-- - Broker: internal/tools/broker.go with the types of pkg/toolapi/types.go. Requests holds the
--   checks on a request, Schemas Register, Setup the construction, Calls the table of calls with the cancellation of a run,
--   Execute the transaction that begins a call, Rounds the one that ends it and `Execute` as a
--   whole, Steps the histories of interleaved calls; Moves holds the effects of their steps, and
--   Authority, Begins, Unchanged, Uses, Once, Kept, Waits, Answers, Runs, Registry and Cancels
--   hold the theorems.
-- - Control: internal/taskcontrol/service.go, which changes a task in the repository and revokes
--   its grants; Control.Cancel holds the theorem.
-- - Stream: pkg/providerapi/provider.go (Events; Emit and Collect hold the theorems) and
--   internal/modelstream/hub.go (Hub; Batches, Moves, Coalesce and Flights hold the theorems, the last
--   with each emission as a step of its own).
-- - Policy: internal/policy/policy.go; Policy.Decisions holds the theorems.
-- - Approval: internal/approval/grant.go. Match holds the tests of a grant against a request,
--   Grant the transactions on the table of grants, Issue the issue of a grant, Ops the calls as
--   data; Consumption, Commits, Progress, History, Revocation, Coverage, Contained, Sanction and
--   Usable hold
--   the theorems. internal/approval/plan.go: Normal and Document hold the normal forms, Order and
--   Capabilities the theorems. internal/approval/approval.go: Records holds the tables, Decide the
--   operations, Invalidation the theorem.
-- - Context: internal/contextpack/estimate.go (Estimate, Bounds), pack.go (Trim, Pack, Passes,
--   Turns), repair.go (Repair, Outstanding, Pairing, Users), the split into head and tail
--   (Split, Cuts), the budgets of estimate.go and view.go (Budget) and the assembly of view.go
--   (View, Segments), with the messages of pkg/providerapi/provider.go (Message).
-- - Agent: internal/agent/inbox.go (Inbox, Delivery) and loop_detection.go (Loops).
--
-- Conventions. A Go string is its list of code points, so the strings are valid UTF-8; a
-- string-typed enumeration is a data type with a last constructor for any other string. Times are
-- nanoseconds since Go's zero time, and what `time.Now()` reads is an argument. A `uint64` wraps
-- around; an `int64` is a signed number; token counts are numbers without a bound, since memory
-- bounds them. Maps are functions or association lists. The text of an error is left out, its kind
-- is kept.
--
-- Bounds and fuel. Decimal digits take n + 1 rounds for the number n. The drop loop of `Pack` takes
-- the length of the view plus one, and each round shortens the view. `Execute` of the broker takes
-- two rounds, one before and one after the wait for the user.
--
-- Not modelled: HTTP, the providers' wire formats, the file system, processes, the terminal
-- interface and the failures of the database, which are input and output around this logic; the
-- queries that only present data. The verb `%q` of package `fmt`, `strings.ToLower` on domains,
-- `path.Clean`, JSON, SHA-256, the resolution of paths in the file system, the tools, the
-- permission gate and the artifact store are parameters. An operation on the database is one step,
-- since it runs in a transaction.
pub mod Common
pub mod Kernel
pub mod Policy
pub mod Scheduler
pub mod Stream
pub mod Permission
pub mod Control
pub mod Context
pub mod Agent
pub mod Approval
pub mod Broker
pub mod Events
