-- ===== src/Lib.antt =====
-- A model of the core of the ERP backend (backend/src), a FastAPI service over PostgreSQL. Each
-- service method is a function from the tables that it reads to a result with the tables that its
-- transaction commits; a method that raises commits nothing, since a route commits once at its end.
--
-- - Prelude: shared names, Boolean tests, integers, lists summed and searched, results.
-- - Decimal: `Decimal.quantize`. Amounts are whole numbers of 10^-4, the scale of the `Numeric(18, 4)`
--   columns; sums and differences of such amounts are exact, and no column limit is modelled.
-- - Accounting (backend/src/modules/accounting): Entities and Tax are domain/entities.py; Store holds
--   the tables of infrastructure/models.py and the lookups of infrastructure/repositories.py; Chart and
--   Moving are `ChartOfAccountsService` of application/services.py, whose walks along the tree have fuel,
--   four rounds for the four levels; Entries is `JournalEntryService` of application/services.py; Ledger, TrialBalance and GeneralLedger are
--   the ledger queries; Lifecycle is the journal over any sequence of calls; Statements is the income
--   statement and the balance sheet of `ReportingService`, where the walk that finds the cost of goods
--   sold accounts is an argument and the rollup to a detail level is left out.
-- - Inventory (backend/src/modules/inventory): Store holds the stock tables and their queries, Valuation
--   is domain/valuation, Moves is `InventoryValuationService` of application/services.py, History is the
--   stock over any sequence of calls. Quantities and unit costs are whole numbers of 10^-6 and values of
--   10^-12, and the unit cost of a stored move or layer is rounded to four decimals; a quotient is the
--   exact one, rounded once, where `decimal` first keeps 28 digits of it.
-- - Commission (backend/src/modules/commission): `CommissionService` over its table; Reversal is about
--   credit notes.
-- - Numbering: `f"{n:06d}"`, the number in a document's name. MasterData: the partners, products, tax rates,
--   warehouses and locations that the document services read
--   (backend/src/modules/identity/infrastructure, accounting/infrastructure, inventory/infrastructure).
-- - Zatca (backend/src/modules/zatca): Entities is domain/entities.py, Qr is
--   infrastructure/qr_encoder.py, Processor is `ZatcaInvoiceProcessor` of application/zatca_service.py
--   with the hash chain and the sandbox gateway of infrastructure; `Toolkit` holds what they call: UTF-8,
--   base64, the text of a decimal, SHA-256, the stamp and the XML.
-- - Sales (backend/src/modules/sales): Store holds the tables and their queries, Orders is
--   `QuotationService` of application/services.py, and Lines, Submission, Posting, Restock, Numbers,
--   Issuing and Crediting are `SalesInvoiceService`; a document is numbered, submitted through Zatca,
--   posted through Accounting, delivered or taken back through Inventory and paid commission on through
--   Commission. Effects says what each call leaves, Quantities is about the order lines, and Lifecycle
--   is the module over any sequence of calls.
-- - Payments (backend/src/modules/payments): Store holds the tables, Recording is `PaymentService`,
--   Allocations and Limits are about what a payment settles, Posting about what its journal entry does to the balances; Subledger
--   is `SubledgerService`'s movements, running balances and aging buckets. A payment posts through
--   Accounting's create_draft_entry and post_entry and pays a collector through Commission.
-- - FixedAssets (backend/src/modules/fixed_assets): Register holds the asset tables and calendar dates,
--   Depreciation is `run_depreciation` of `FixedAssetService`, which posts through Accounting.
--
-- A UUID is a number, and `uuid4()`, the date and the time are arguments of the methods that call
-- them. A date is its day number, from 1 January 1900 on. A unique index makes the first row that is
-- found the only one; where no index does, a query for one row fails on two, as `scalar_one_or_none`
-- does. Row order, which SQL leaves open or an ORDER BY fixes for display, is the order of the tables.
pub mod Prelude
pub mod Decimal
pub mod Accounting
pub mod Inventory
pub mod Commission
pub mod Numbering
pub mod MasterData
pub mod Zatca
pub mod Sales
pub mod Payments
pub mod FixedAssets
mod Tests
