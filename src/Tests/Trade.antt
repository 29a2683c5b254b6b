-- ===== src/Tests/Trade.antt =====
-- A quotation of two machines at 100.00 with VAT of 15%, its order, the invoice of one of them, and the
-- invoice's credit note.
use alfahd_erp_system.Tests.Stock.{opened_stock, opened_stock-IsMovesSum}
use alfahd_erp_system.Sales.Restock.{
  delivery_moves, post_return, post_return_if, post_variance_if, restock_for_credit_note, take_back,
  take_back_moves,
}
use alfahd_erp_system.Inventory.Valuation.{
  get_valuation_strategy, compute_issue_cost, average_issue_cost,
}
use alfahd_erp_system.Inventory.Moves.{
  issue_stock, receive_stock, average_after_issue, average_after_receipt,
  notify_if_crossed_low_stock, variance_of_receipt,
}
use alfahd_erp_system.Decimal.{half_even, half_up}
use alfahd_erp_system.Accounting.Entities.{value_error, assert_balanced, post_init, post_init_all}
use alfahd_erp_system.Accounting.Entries.{
  check_cost_center, check_line, check_lines, create_draft_entry, post_entry, require_account,
  require_entry,
}
use alfahd_erp_system.Sales.Numbers.{next_invoice_number}
use alfahd_erp_system.Prelude.{
  All, ◌⊎◌, any, ◌*ℤ◌, ◌+ℤ◌, ◌-ℤ◌, ℕ, ◌≡◌, refl, true, false, none, some, List, [], ◌∷◌, map, arith,
  pos, String, Result, ok, err, ◌+◌,
}
use alfahd_erp_system.Numbering.{codes}
use alfahd_erp_system.Accounting.Store.{
  add_entry, find_covering, get_account, get_account_by_code, get_entry, get_journal_by_code,
  get_lines, save_entry, expense, liability, AccountType, Account, asset, revenue, Books,
}
use alfahd_erp_system.Inventory.Store.{get_or_create_for_update}
use alfahd_erp_system.MasterData.{
  get_warehouse, get_default_for_company, list_by_warehouse, get_partner, get_product,
  resolve_tax_rate_percent, get_rate_by_id, standard_rate, Partner, MasterData,
}
use alfahd_erp_system.Zatca.Qr.{Encodings, QrFields, build_qr_payload, join_tlvs, tlv, to_bytes}
use alfahd_erp_system.Zatca.Entities.{cleared}
use alfahd_erp_system.Zatca.Processor.{
  compute_invoice_hash, prepare, submit, submit_prepared, Toolkit,
}
use alfahd_erp_system.Sales.Store.{
  get_order, get_order_lines, get_sales_invoice, get_invoice_lines, Quotation, SalesOrder,
  SalesOrderLine, SalesInvoice, ZatcaSubmission, SalesBook, confirmed, cancelled,
}
use alfahd_erp_system.Sales.Orders.{
  require_order, SalesError, LineIn, DocumentIn, new_quotation, new_order, create_quotation,
  confirm_to_sales_order,
}
use alfahd_erp_system.Sales.Lines.{
  select_items, take_item, line_amount, line_tax, price_line, price_lines, InvoiceItem,
}
use alfahd_erp_system.Sales.Submission.{
  latest_zatca_submission, next_icv_and_previous_hash, run_zatca_pipeline, submit_or_prepare,
  Seller,
}
use alfahd_erp_system.Sales.Posting.{
  deliver, deliver_lines, document_warehouse, create_and_post, deduct_stock_for_lines,
  post_invoice_entry, record_invoice_commission, Caller,
}
use alfahd_erp_system.Sales.Issuing.{
  add_invoice, fulfil, complete_invoice, submit_and_post, issue_invoice_from_order, new_invoice,
}
use alfahd_erp_system.Sales.Crediting.{issue_credit_note, complete_credit_note, require_original}
use alfahd_erp_system.Sales.Quantities.Selection.{IsUnrepeatedIn}
use alfahd_erp_system.Sales.Lifecycle.{
  SalesReach, opening, extended, quotes, confirms, invoices, credits,
}
use alfahd_erp_system.Sales.Store.{has_line_id}
use alfahd_erp_system.Sales.Lines.{add_all_invoiced}
use alfahd_erp_system.Prelude.{sum_of, find?, ◌+ℤ◌, ◌==◌, length}
use alfahd_erp_system.Accounting.TrialBalance.{trial_balance}
use alfahd_erp_system.Accounting.Statements.{balance_sheet, total_liabilities_and_equity}
use alfahd_erp_system.Accounting.Entries.Balance.{IsConsistent}
use alfahd_erp_system.Accounting.Lifecycle.Invariant.{IsPostable}
use alfahd_erp_system.Inventory.History.{IsMovesSum}
use alfahd_erp_system.Zatca.Qr.Decoding.{
  IsByte, is_long, published, read_fields, build_qr_payload_decodes,
}
use alfahd_erp_system.Sales.Quantities.Orders.{IsSound}
use alfahd_erp_system.Sales.Quantities.Repeats.{select_items_repeats}
use alfahd_erp_system.Sales.Lifecycle.Quantities.{SalesReach-IsSound}
use alfahd_erp_system.Sales.Lifecycle.Chain.{IsChain, chain_of, SalesReach-IsChain}
use alfahd_erp_system.Sales.Lifecycle.Effects.{SalesReach-IsMovesSum, SalesReach-balances}

abbrev trade_account : ℕ → String → AccountType → Account
trade_account i code kind = record {
  id = i;
  company_id = 7;
  code = code;
  name = code;
  name_ar = none;
  account_type = kind;
  parent_id = none;
  level = 1;
  is_group = false;
  is_active = true;
  is_cash_equivalent = false;
  deleted_at = none;
}

abbrev trade_books : Books
trade_books = record {
  accounts =
      trade_account 1 "1200" asset
      ∷ trade_account 2 "4100" revenue
      ∷ trade_account 3 "2200" liability
      ∷ trade_account 4 "1300" asset
      ∷ trade_account 5 "5100" expense
      ∷ [];
  journals =
      record { id = 5; company_id = 7; code = "SALES" }
      ∷ record { id = 6; company_id = 7; code = "GEN" }
      ∷ [];
  cost_centers = [];
  periods = [];
  entries = [];
  lines = [];
}

abbrev customer : Partner
customer = record {
  id = 8;
  company_id = 7;
  name = "Customer";
  vat_number = some "300000000000003";
  credit_days = some 30;
  default_sales_rep_id = none;
  deleted_at = none;
}

abbrev trade_master : MasterData
trade_master = record {
  partners = customer ∷ [];
  products = record { id = 3; name = "Machine"; is_stockable = true; deleted_at = none } ∷ [];
  tax_rates = record { id = 9; company_id = 7; kind = "standard"; rate_percent = pos 1_500 } ∷ [];
  warehouses = record { id = 11; company_id = 7; is_default = true } ∷ [];
  locations = record { id = 4; warehouse_id = 11 } ∷ [];
}

abbrev market : SalesBook
market = record {
  quotations = [];
  quotation_lines = [];
  orders = [];
  order_lines = [];
  invoices = [];
  invoice_lines = [];
  submissions = [];
  master = trade_master;
  books = trade_books;
  stock = opened_stock;
  commissions = record { representatives = []; transactions = [] };
}

-- Readable stand-ins for the encodings and the hash.
abbrev toolkit : Toolkit
toolkit = record {
  encodings = record { utf8 = codes; base64 = λ _. "qr"; decimal_text = λ _. "0" };
  sha256_base64 = λ text. text;
  stamp = λ text. "stamp";
  invoice_xml = λ d uuid icv. d.invoice_number;
}

abbrev seller : Seller
seller = record { name = "Seller"; vat_number = "310000000000003"; toolkit = toolkit }

abbrev clerk : Caller
clerk = record {
  branch_id = 1;
  created_by = 2;
  now = 50;
  checks_cost_centers = true;
  has_commission = true;
  has_inventory = true;
  valuation_method = "average";
  alerts = none;
}

abbrev two_machines : DocumentIn
two_machines = record {
  partner_id = 8;
  date = 10;
  lines =
      record { product_id = 3; qty = pos 2_000_000; unit_price = pos 1_000_000; tax_rate_id = 9 }
      ∷ [];
  warehouse_id = none;
  cost_center_id = none;
  payment_terms = none;
  sales_rep_id = none;
}

abbrev quotation : Quotation
quotation = new_quotation 100 7 1 "QT-000001" two_machines

abbrev quoted : SalesBook
quoted = record market {
  quotations = quotation ∷ [];
  quotation_lines =
      record {
        company_id = 7;
        quotation_id = 100;
        product_id = 3;
        qty = pos 2_000_000;
        unit_price = pos 1_000_000;
        tax_rate_id = 9;
      }
      ∷ [];
}

quotes_it : create_quotation true (λ n. 100 + n) 7 1 two_machines market ≡ ok (quotation, quoted)
unfolding create_quotation alfahd_erp_system.Sales.Orders.check_sales_rep
    alfahd_erp_system.Sales.Orders.next_quotation_number alfahd_erp_system.Sales.Store.add_quotation
quotes_it = refl

abbrev order : SalesOrder
order = new_order 200 quotation "SO-000001"

abbrev machine_line : SalesOrderLine
machine_line = record {
  id = 201;
  company_id = 7;
  sales_order_id = 200;
  product_id = 3;
  description = "";
  qty = pos 2_000_000;
  unit_price = pos 1_000_000;
  tax_rate_id = 9;
  qty_invoiced = pos 0;
}

abbrev ordered : SalesBook
ordered = record quoted {
  quotations = record quotation { status = confirmed } ∷ [];
  orders = order ∷ [];
  order_lines = machine_line ∷ [];
}

confirms_it : confirm_to_sales_order (λ n. 200 + n) 100 7 quoted ≡ ok (order, ordered)
unfolding confirm_to_sales_order alfahd_erp_system.Sales.Orders.require_quotation
    alfahd_erp_system.Sales.Store.get_quotation alfahd_erp_system.Sales.Store.get_quotation_lines
    alfahd_erp_system.Sales.Orders.next_order_number alfahd_erp_system.Sales.Store.add_order
confirms_it = refl

-- The value of a call that returns.
abbrev value_or : {A : Type 0} → A → Result SalesError A → A
value_or a (ok x) = x
value_or a (err e) = a

abbrev Issued : Type 0
Issued = SalesInvoice × ZatcaSubmission × SalesBook

abbrev unissued : Issued
unissued = (
  new_invoice 0 0 order customer "" (pos 0) (pos 0),
  record {
    company_id = 0;
    sales_invoice_id = 0;
    uuid_value = 0;
    icv = 0;
    previous_hash = "";
    invoice_hash = "";
    qr_payload = "";
    xml_document = "";
    submission_mode = "";
    status = cleared;
  },
  market,
)

abbrev one_of_them : List InvoiceItem
one_of_them = record { sales_order_line_id = 201; qty = pos 1_000_000 } ∷ []

abbrev invoicing : List InvoiceItem → Result SalesError Issued
invoicing items =
    issue_invoice_from_order seller clerk (λ n. 300 + n) "2026-01-10T09:00:00Z" 200 7 (some items)
      ordered

abbrev invoiced : Issued
invoiced = value_or unissued (invoicing one_of_them)

invoices_it : invoicing one_of_them ≡ ok invoiced
unfolding deliver deliver_lines document_warehouse get_warehouse get_default_for_company
    list_by_warehouse issue_stock receive_stock average_after_issue average_after_receipt
    notify_if_crossed_low_stock variance_of_receipt get_or_create_for_update get_valuation_strategy
    compute_issue_cost average_issue_cost require_order get_order get_order_lines get_sales_invoice
    get_invoice_lines get_partner get_product resolve_tax_rate_percent get_rate_by_id standard_rate
    select_items take_item line_amount line_tax price_line price_lines next_invoice_number
    add_invoice fulfil complete_invoice submit_and_post issue_invoice_from_order
    latest_zatca_submission next_icv_and_previous_hash run_zatca_pipeline submit_or_prepare
    compute_invoice_hash prepare submit submit_prepared build_qr_payload join_tlvs tlv to_bytes
    create_and_post deduct_stock_for_lines post_invoice_entry record_invoice_commission
    check_cost_center check_line check_lines create_draft_entry post_entry require_account
    require_entry add_entry find_covering get_account get_account_by_code get_entry
    get_journal_by_code get_lines save_entry assert_balanced post_init post_init_all half_even
    half_up ◌*ℤ◌ ◌+ℤ◌ ◌-ℤ◌
invoices_it = refl

invoiced_total : invoiced.0.total_amount ≡ pos 1_150_000
unfolding deliver deliver_lines document_warehouse get_warehouse get_default_for_company
    list_by_warehouse issue_stock receive_stock average_after_issue average_after_receipt
    notify_if_crossed_low_stock variance_of_receipt get_or_create_for_update get_valuation_strategy
    compute_issue_cost average_issue_cost require_order get_order get_order_lines get_sales_invoice
    get_invoice_lines get_partner get_product resolve_tax_rate_percent get_rate_by_id standard_rate
    select_items take_item line_amount line_tax price_line price_lines next_invoice_number
    add_invoice fulfil complete_invoice submit_and_post issue_invoice_from_order
    latest_zatca_submission next_icv_and_previous_hash run_zatca_pipeline submit_or_prepare
    compute_invoice_hash prepare submit submit_prepared build_qr_payload join_tlvs tlv to_bytes
    create_and_post deduct_stock_for_lines post_invoice_entry record_invoice_commission
    check_cost_center check_line check_lines create_draft_entry post_entry require_account
    require_entry add_entry find_covering get_account get_account_by_code get_entry
    get_journal_by_code get_lines save_entry assert_balanced post_init post_init_all half_even
    half_up ◌*ℤ◌ ◌+ℤ◌ ◌-ℤ◌
invoiced_total = refl

abbrev crediting : Result SalesError Issued
crediting =
    issue_credit_note seller clerk (λ n. 400 + n) "2026-01-11T09:00:00Z" 11 300 7 true invoiced.2

abbrev credited : Issued
credited = value_or unissued crediting

credits_it : crediting ≡ ok credited
unfolding deliver deliver_lines document_warehouse get_warehouse get_default_for_company
    list_by_warehouse issue_stock receive_stock average_after_issue average_after_receipt
    notify_if_crossed_low_stock variance_of_receipt get_or_create_for_update get_valuation_strategy
    compute_issue_cost average_issue_cost require_order get_order get_order_lines get_sales_invoice
    get_invoice_lines get_partner get_product resolve_tax_rate_percent get_rate_by_id standard_rate
    select_items take_item line_amount line_tax price_line price_lines next_invoice_number
    add_invoice fulfil complete_invoice submit_and_post issue_invoice_from_order
    latest_zatca_submission next_icv_and_previous_hash run_zatca_pipeline submit_or_prepare
    compute_invoice_hash prepare submit submit_prepared build_qr_payload join_tlvs tlv to_bytes
    create_and_post deduct_stock_for_lines post_invoice_entry record_invoice_commission
    check_cost_center check_line check_lines create_draft_entry post_entry require_account
    require_entry add_entry find_covering get_account get_account_by_code get_entry
    get_journal_by_code get_lines save_entry assert_balanced post_init post_init_all half_even
    half_up ◌*ℤ◌ ◌+ℤ◌ ◌-ℤ◌ issue_credit_note complete_credit_note require_original delivery_moves
    post_return post_return_if post_variance_if restock_for_credit_note take_back take_back_moves
credits_it = refl

-- Both documents are in the chain of the company.
chained : map (λ (s : ZatcaSubmission). s.icv) credited.2.submissions ≡ 2 ∷ 1 ∷ []
unfolding deliver deliver_lines document_warehouse get_warehouse get_default_for_company
    list_by_warehouse issue_stock receive_stock average_after_issue average_after_receipt
    notify_if_crossed_low_stock variance_of_receipt get_or_create_for_update get_valuation_strategy
    compute_issue_cost average_issue_cost require_order get_order get_order_lines get_sales_invoice
    get_invoice_lines get_partner get_product resolve_tax_rate_percent get_rate_by_id standard_rate
    select_items take_item line_amount line_tax price_line price_lines next_invoice_number
    add_invoice fulfil complete_invoice submit_and_post issue_invoice_from_order
    latest_zatca_submission next_icv_and_previous_hash run_zatca_pipeline submit_or_prepare
    compute_invoice_hash prepare submit submit_prepared build_qr_payload join_tlvs tlv to_bytes
    create_and_post deduct_stock_for_lines post_invoice_entry record_invoice_commission
    check_cost_center check_line check_lines create_draft_entry post_entry require_account
    require_entry add_entry find_covering get_account get_account_by_code get_entry
    get_journal_by_code get_lines save_entry assert_balanced post_init post_init_all half_even
    half_up ◌*ℤ◌ ◌+ℤ◌ ◌-ℤ◌ issue_credit_note complete_credit_note require_original delivery_moves
    post_return post_return_if post_variance_if restock_for_credit_note take_back take_back_moves
chained = refl

-- The line named twice: three machines of an order of two.
abbrev most_of_them : InvoiceItem
most_of_them = record { sales_order_line_id = 201; qty = pos 1_500_000 }

over_invoiced :
    map
      (λ (l : SalesOrderLine). l.qty_invoiced)
      (value_or unissued (invoicing (most_of_them ∷ most_of_them ∷ []))).2.order_lines
    ≡ pos 3_000_000 ∷ []
unfolding deliver deliver_lines document_warehouse get_warehouse get_default_for_company
    list_by_warehouse issue_stock receive_stock average_after_issue average_after_receipt
    notify_if_crossed_low_stock variance_of_receipt get_or_create_for_update get_valuation_strategy
    compute_issue_cost average_issue_cost require_order get_order get_order_lines get_sales_invoice
    get_invoice_lines get_partner get_product resolve_tax_rate_percent get_rate_by_id standard_rate
    select_items take_item line_amount line_tax price_line price_lines next_invoice_number
    add_invoice fulfil complete_invoice submit_and_post issue_invoice_from_order
    latest_zatca_submission next_icv_and_previous_hash run_zatca_pipeline submit_or_prepare
    compute_invoice_hash prepare submit submit_prepared build_qr_payload join_tlvs tlv to_bytes
    create_and_post deduct_stock_for_lines post_invoice_entry record_invoice_commission
    check_cost_center check_line check_lines create_draft_entry post_entry require_account
    require_entry add_entry find_covering get_account get_account_by_code get_entry
    get_journal_by_code get_lines save_entry assert_balanced post_init post_init_all half_even
    half_up ◌*ℤ◌ ◌+ℤ◌ ◌-ℤ◌
over_invoiced = refl

traded : SalesReach toolkit IsUnrepeatedIn market credited.2
traded =
    extended
      (extended
        (extended
          (extended opening (quotes true (λ n. 100 + n) 7 1 two_machines quotation quotes_it))
          (confirms (λ n. 200 + n) 100 7 order confirms_it))
        (invoices seller clerk (λ n. 300 + n) "2026-01-10T09:00:00Z" 200 7 (some one_of_them)
          invoiced.0 invoiced.1 refl (refl, tt) invoices_it))
      (credits seller clerk (λ n. 400 + n) "2026-01-11T09:00:00Z" 11 300 7 true credited.0
        credited.1 refl credits_it)

SalesReach-IsSound_example : IsSound credited.2.order_lines
SalesReach-IsSound_example = SalesReach-IsSound toolkit market credited.2 traded (tt, tt)

SalesReach-IsChain_example : IsChain toolkit (chain_of 7 credited.2)
SalesReach-IsChain_example =
    SalesReach-IsChain toolkit IsUnrepeatedIn market credited.2 traded (λ c. tt) 7

SalesReach-IsMovesSum_example : IsMovesSum credited.2.stock
SalesReach-IsMovesSum_example =
    SalesReach-IsMovesSum toolkit IsUnrepeatedIn market credited.2 traded opened_stock-IsMovesSum

trade_books-IsConsistent : IsConsistent trade_books
trade_books-IsConsistent = record { distinct = tt; owned = tt; balanced = tt }

trade_books-IsPostable : IsPostable trade_books
trade_books-IsPostable = record { accounts_distinct = ground arith; chart = tt }

SalesReach-balances_example :
    let sheet = balance_sheet (λ i. i == 5) 7 60 none credited.2.books in
    let rows = trial_balance 7 1 60 none credited.2.books in
    (sheet.assets_total ≡ total_liabilities_and_equity sheet)
    × (sum_of (λ r. r.period_debit) rows ≡ sum_of (λ r. r.period_credit) rows)
SalesReach-balances_example =
    SalesReach-balances toolkit IsUnrepeatedIn (λ i. i == 5) 7 1 60 none market credited.2
      trade_books-IsConsistent trade_books-IsPostable traded

select_items_repeats_example :
    (select_items (most_of_them ∷ most_of_them ∷ []) ordered.order_lines
      ≡ ok ((machine_line, pos 1_500_000) ∷ (machine_line, pos 1_500_000) ∷ []))
    × (find? (has_line_id 201) (
          add_all_invoiced
            ((machine_line, pos 1_500_000) ∷ (machine_line, pos 1_500_000) ∷ [])
            ordered.order_lines)
        ≡ some (record machine_line { qty_invoiced = (pos 0 +ℤ pos 1_500_000) +ℤ pos 1_500_000 }))
unfolding ◌-ℤ◌
select_items_repeats_example =
    select_items_repeats most_of_them ordered.order_lines refl (omega arith) (omega arith)

abbrev qr : QrFields
qr = record {
  seller_name = "Seller";
  vat_number = "310000000000003";
  timestamp_iso = "2026-01-10T09:00:00Z";
  invoice_total = pos 1_150_000;
  vat_amount = pos 150_000;
  invoice_hash_b64 = "aGFzaA==";
  include_phase2_placeholders = true;
}

-- Every text of the stand-in encoding is one byte long.
abbrev plain : Encodings
plain = record { utf8 = λ _. 65 ∷ []; base64 = λ _. "qr"; decimal_text = λ _. "0" }

build_qr_payload_decodes_example :
    ((bytes : List ℕ) × (build_qr_payload plain qr ≡ ok (plain.base64 bytes))
      × (any is_long (published plain qr) ≡ false)
      × (All IsByte bytes
          × (read_fields (length (published plain qr)) bytes ≡ some (published plain qr))))
    ⊎ (build_qr_payload plain qr ≡ err (value_error "TLV value exceeds 255 bytes"))
      × (any is_long (published plain qr) ≡ true)
build_qr_payload_decodes_example = build_qr_payload_decodes plain qr (λ text. (omega arith, tt))
