-- ===== src/Schema.antt =====
-- The columns of the billing tables, from the models of the Django apps. Primary keys are numbers
-- and stand outside the rows, in `Table`. Money is a signed number of cents.
mod Values
mod Accounts
mod Plans
mod Subscriptions
mod Invoices
mod Payments
unfoldable pub use Values.*
unfoldable pub use Accounts.*
unfoldable pub use Plans.*
unfoldable pub use Subscriptions.*
unfoldable pub use Invoices.*
unfoldable pub use Payments.*
