-- ===== src/Lib.antt =====
-- Monqom keeps the money of households and small groups: a backend of services over a database
-- (backend/src), and a web application in front of it (frontend/src). This library models the parts
-- that decide something about money, dates and access, each in functions that can be run.
--
-- Parts and files
--   Common: what the other files share. Text is a list of character codes, integers below zero are
--     the two parts of Common/Int, Common/Results has answers that may be an exception, and
--     Common/Tables the queries and updates of a table that is a list of rows.
--   Calendar: days as UTC midnights. Calendar has `startOfUtcMonth` and `addUtcMonthsClamped` of
--     backend/src/modules/goals/goal-plan.calculator.ts, Calendar/Parse has `parseDateOnly` and
--     `parseYearMonth` of backend/src/shared/utils/validation.ts, and Calendar/DateOnly has the helpers
--     of frontend/src/lib/date-only.ts. Calendar/Months moves dates by months.
--   Goals: savings goals. Goals/Plan is goal-plan.calculator.ts, Goals/Preview is
--     frontend/src/lib/goals.ts, and the agreement of the two is in Goals/Preview/Agreement.
--     Goals/Store is what backend/src/modules/goals/goals.service.ts relies on of the database, an
--     interface with laws; Goals/Rules has the checks of the service, Goals/Service its transactions
--     and methods, Goals/Retry the retries of `runSerializable`, and Goals/Requests the requests
--     of backend/src/modules/goals/goals.controller.ts and sequences of them.
--   Budgets: Budgets/Progress is backend/src/modules/budgets/budget-progress.calculator.ts.
--   Integrations: Integrations/RateLimit is
--     backend/src/modules/integrations/integration-rate-limit.service.ts; its child modules take the
--     budgets of credentials, the retry of a refused call, the block of failing sources and the
--     clean-up.
--     Integrations/Contract is external-transaction-contract.ts in the same folder, with the checks of
--     a transaction that an integration sends and `normalizeCurrency` of
--     backend/src/shared/currency/currency.service.ts. Integrations/Ledger has the rows of
--     transactions and of idempotency records. Integrations/Ownership is the part of
--     external-transaction-ownership.service.ts that runs a request once for each idempotency key,
--     Integrations/Transactions the creating, updating and deleting of transactions there, with the
--     writes of backend/src/modules/transactions/transactions.repository.ts that these make.
--     Integrations/Scopes is integration-scopes.ts.
--   Categories: backend/src/modules/categories/categories.service.ts. Categories/Rows has the rows and
--     the conditions of queries, Categories/Hierarchy the reading of the tree, Categories/Checks and
--     Categories/Service the operations, and Categories/Requests sequences of them. Categories/Forest
--     and its child have what each change makes of the rows, Categories/Listing is about the tree
--     that is read, Categories/Reordering about the order.
--   PaymentSources: backend/src/modules/payment-sources. PaymentSources/Rows is
--     payment-sources.repository.ts, PaymentSources/Service is payment-sources.service.ts, and
--     PaymentSources/Requests has sequences of requests.
--   Transactions and budgets refer to categories and payment sources by identifier; the files above
--   that read them take them from rows of their own, so that no part needs the whole of another.
--   Tests: runs on concrete inputs, and Tests/Memory, tables in memory that meet the laws of the
--     store.
--
-- State and failures
--   A transaction takes the rows and gives its answer with the new rows, or an exception, which
--   undoes it. That the database refuses to commit is an input: of each attempt for the
--   goals, of each statement for the rate limits. All attempts of one request start from the same
--   rows. Requests for external transactions, categories and payment sources run one after another,
--   which is what the locks of the first make of those for one key; a transaction that another one
--   overtook is an input where the code handles the refusal of the unique index (`raced` in
--   Integrations/Transactions). An exception leaves the rows that there were before the request.
--   The rows of categories are written through the unique index of names that
--   backend/prisma/migrations/0019_security_foundations/migration.sql makes; restoring a category
--   with its children relies on it, since the service compares only the name of the restored
--   category and not those of its children.
--   Identifiers of new rows are inputs. Fingerprints and digests, the rate of exchange, letter case,
--   the comparison of text in the database and `localeCompare` are functions that enter as parameters.
--   Reading the clock, the digest of a key and the current day in a time zone are inputs too.
--
-- Bounds
--   Dates that the program reads have years of four digits; `Date.UTC` takes the years 0 to 99 for
--   1900 to 1999, so that the readable ones start at 100. From the year 10000 on a date is written
--   the way `toISOString` does, with a sign and six digits. The model's dates have no last day, where
--   a `Date` ends in the year 275760; the program moves dates by at most 120 months. A serializable transaction has three attempts, and the loop
--   has that much fuel. Times are whole milliseconds. `getTotalSpent` has fuel for the depth of its
--   calls, which is to be above the height of the trees that the categories form.
--   Building the tree of categories has fuel, more than there are rows, and gives nothing when it runs
--   out.
--   Amounts in cents are natural numbers without an upper bound; JavaScript computes them exactly up
--   to 2^53.
--
-- Not modelled
--   Percentages of a goal are binary floating-point numbers and enter as a parameter. Left out are
--   what the database and the browser do themselves (`Intl`, and constraints other than the uniqueness
--   of identifiers, of external ids and of the names of active categories), rows only printed
--   (`mapGoal`, `mapOperation`), the columns `createdAt` and `updatedAt`, most metadata of audit
--   events, the rate, day and source of an exchange, the JSON of stored responses, which are kept as
--   values, the timers of the clean-ups, rendering, and the services that no file above names.
pub mod Budgets
pub mod Calendar
pub mod Categories
pub mod Common
pub mod Goals
pub mod Integrations
pub mod PaymentSources
pub mod Tests
