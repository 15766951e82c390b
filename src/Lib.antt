-- ===== src/Lib.antt =====
-- Chargeflow: recurring billing with plans, subscriptions, invoices and payments (Python, Django).
-- This library models the billing core and proves what it keeps.
--
-- The program's parts. Subscriptions bill an invoice for each period. An issued invoice is handed to
-- a worker, which charges it in three phases: prepare an attempt, call the gateway, settle the
-- result. A webhook settles a result too. A failure leaves the invoice FAILED and the subscription
-- OVERDUE; the dunning cycle issues the invoice again or, after three failures, gives up and cancels
-- the subscription. Cycles renew subscriptions, end trials and pick up charges that were lost.
--
-- The files, by the part they model:
--   Calendar        datetime, timedelta and _add_months of subscriptions/application/services.py
--   Schema          the columns and choices of the models of accounts, plans, subscriptions,
--                   invoices and payments
--   Db              the tables, transactions (transaction.atomic), exceptions, on_commit hand-offs
--   Invoices        invoices/domain/models.py and invoices/application/services.py
--   Subscriptions   subscriptions/domain/models.py; its child Services:
--                   subscriptions/application/services.py
--   Payments        payments/domain/models.py (Attempts), payments/infrastructure (Gateway,
--                   Signature), payments/application/services.py (Prepare, Settle, Charge, Webhook)
--   Tasks           invoices/tasks.py, subscriptions/tasks.py and payments/tasks.py
--   Accounts        accounts/request_context.py, accounts/permissions.py, accounts/throttling.py, and
--                   invitations of accounts/models.py and accounts/api/views.py
--   Memberships     the resolution of a user's organization, with its theorems
--   Throttling      the counters of accounts/throttling.py
--   Keys            accounts/tokens.py, accounts/authentication.py, and API keys of
--                   accounts/models.py and accounts/api/views.py
--   Evolution       the relation between the database before and after an operation, with the proof
--                   for each operation
--   History         runs of the billing core: the services, charges, webhooks, cycles and writes of
--                   plans and customers in any order
--   Api             the views and the serializers: payments/api (Payments, Webhooks), subscriptions/api
--                   and invoices/api (Subscriptions), plans/api with the saves of plans and customers
--                   (Catalog), accounts/api (Auth, Organizations); Scope, Accepted, Delivery,
--                   Accounts and Founding hold the theorems on them
--   Migrations      the data migrations of organizations: subscriptions/migrations/0003, invoices/
--                   migrations/0003 and payments/migrations/0004
--   Periods, Settlement, Ledger, Recovery, Delivery, Redelivery, Batches,
--   Signing, Invoicing, Dunning, Canceling, Renewing, Collecting, Access, Keys/Validity
--                   theorems on single operations
--   Tests           concrete runs
-- A definition has the name of the function it translates; a part of a function, from one early
-- return to the next, has a name of its own.
--
-- How the code is read. A transaction is a function from the database to a result with the new
-- database, or to an error, which rolls everything back. The calls outside a transaction (attempt,
-- charge_issued, recover_pending and the cycles) give a database also with an exception. Row locks
-- make concurrent transactions run one after the other, so a concurrent history is a sequence of
-- transactions; the phases of a charge are transactions of their own and may interleave. The clock
-- is an argument, read once in a transaction. Money is an integer of cents. Hashes, random draws and
-- UUIDs are arguments; HMAC is a parameter of the signature check, the lower-case text one of
-- invitations. A view is a call outside a transaction that returns a reply, or an exception, which
-- the framework turns into a refusal; what the framework makes of a body (fields, e-mails, passwords,
-- tokens) is an argument. A key of a table comes from a sequence. All recursion is on lists or on
-- numbers, so there is no fuel.
--
-- Not modelled: logging, Celery's retries and time limits, years beyond 9999, the organization's
-- lock in _prepare (it changes no row), routes and the OpenAPI schema, the framework's own status
-- codes for exceptions (NotAuthenticated of an anonymous request is permission_denied here), settings,
-- the other migrations. Of the lengths of text columns, the one of an invoice line's description is
-- modelled, which a plan's name can exceed.
pub mod Prelude
pub mod Calendar
pub mod Schema
pub mod Db
pub mod Invoices
pub mod Subscriptions
pub mod Payments
pub mod Tasks
pub mod Accounts
pub mod Api
pub mod Access
pub mod Keys
pub mod Evolution
pub mod History
pub mod Periods
pub mod Settlement
pub mod Delivery
pub mod Batches
pub mod Signing
pub mod Canceling
pub mod Ledger
pub mod Recovery
pub mod Memberships
pub mod Redelivery
pub mod Renewing
pub mod Throttling
pub mod Migrations
pub mod Invoicing
pub mod Dunning
pub mod Collecting
mod Tests
