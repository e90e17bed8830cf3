-- ===== src/Db.antt =====
-- The rows that the modules keep in PostgreSQL (binno_backend/migrations and the store packages'
-- models.go), the database as one record of tables, and what third-party code supplies: the texts
-- of ids (google/uuid) and of NUMERIC values (pgx). Ids are numbers, instants and durations are
-- nanoseconds, a NUMERIC is a whole number of its smallest unit, and an int64 is an integer.
pub mod Sample
use binno_pta_2026_evaluatio.Prelude.{ℕ, ◌*◌, ◌≡◌, Bool, Option, some, List, String}
use binno_pta_2026_evaluatio.Prelude.Int.{ℤ}
use binno_pta_2026_evaluatio.EventCatalog.{EventName}
use binno_pta_2026_evaluatio.Orders.Status.{Status, Actor, Source}

-- What the code relies on of google/uuid and pgtype.Numeric: a printed value parses back.
pub record Driver : Type 0 where
  pub parse_uuid : String → Option ℕ
  pub uuid_text : ℕ → String
  pub parse_uuid-uuid_text : (id : ℕ) → parse_uuid (uuid_text id) ≡ some id
  pub parse_numeric : String → Option ℕ
  pub numeric_text : ℕ → String
  pub parse_numeric-numeric_text : (q : ℕ) → parse_numeric (numeric_text q) ≡ some q

-- `geo.Point`: a pair of float64 coordinates, each kept as its text.
pub record Point : Type 0 where
  pub lat : String
  pub lng : String

-- orders.orders.
pub record Order : Type 0 where
  pub id : ℕ
  pub buyer_id : ℕ
  pub store_id : ℕ
  pub status : Status
  pub buyer_type : String
  pub buyer_tin : Option String
  pub fulfillment : String
  pub is_urgent : Bool
  pub goods_amount : ℤ
  pub delivery_fee : ℤ
  pub total_amount : ℤ
  pub dropoff : Option Point
  pub dropoff_address : Option String
  pub district_id : Option ℤ
  pub confirmation_deadline : ℕ
  pub payment_due_at : Option ℕ
  pub created_at : ℕ
  pub closed_at : Option ℕ

-- orders.order_items.
pub record OrderItem : Type 0 where
  pub order_id : ℕ
  pub product_id : ℕ
  pub qty : ℕ
  pub unit_price : ℤ
  pub line_amount : ℤ
  pub commission_bps : ℤ

-- orders.order_events.
pub record OrderEvent : Type 0 where
  pub order_id : ℕ
  pub from_status : Option Status
  pub to_status : Status
  pub actor : Actor
  pub source : Source
  pub payload : List (String × String)
  pub created_at : ℕ

-- orders.confirm_tokens; the hash is that of the token's text.
pub record ConfirmToken : Type 0 where
  pub token_hash : String
  pub order_id : ℕ
  pub store_id : ℕ
  pub expires_at : ℕ
  pub used_at : Option ℕ

pub data OfferStatus : Type 0 where
  published hidden archived : OfferStatus

-- catalog.offers, with the columns that `GetOfferForOrder` joins to it from products and
-- categories.
pub record Offer : Type 0 where
  pub id : ℕ
  pub store_id : ℕ
  pub product_id : ℕ
  pub price : ℤ
  pub declared_qty : ℕ
  pub reserved_qty : ℕ
  pub freshness_at : ℕ
  pub status : OfferStatus
  pub product_is_active : Bool
  pub category_is_active : Bool
  pub confirm_window_minutes : ℕ
  pub commission_bps : ℤ

-- catalog.products, with the columns of its category.
pub record Product : Type 0 where
  pub id : ℕ
  pub is_active : Bool
  pub category_is_active : Bool
  pub confirm_window_minutes : ℕ
  pub commission_bps : ℤ

pub data RequestStatus : Type 0 where
  pending added rejected : RequestStatus

-- catalog.catalog_requests.
pub record CatalogRequest : Type 0 where
  pub id : ℕ
  pub store_id : ℕ
  pub name : String
  pub unit : String
  pub description : Option String
  pub image_url : Option String
  pub status : RequestStatus
  pub product_id : Option ℕ
  pub reject_reason : Option String
  pub resolved_at : Option ℕ
  pub created_at : ℕ

-- trust.order_feedback.
pub record FeedbackRow : Type 0 where
  pub order_id : ℕ
  pub store_id : ℕ
  pub had_problem : Bool
  pub tags : List String
  pub comment : Option String
  pub channel : String
  pub created_at : ℕ

-- catalog.delivery_tariffs.
pub record Tariff : Type 0 where
  pub store_id : ℕ
  pub district_id : ℤ
  pub price : ℤ

-- `GetStoreSaleState`: a store, its owner, and whether each is active.
pub record StoreState : Type 0 where
  pub store_id : ℕ
  pub owner_id : ℕ
  pub store_is_active : Bool
  pub owner_is_active : Bool

pub data InvoiceStatus : Type 0 where
  issued paid refunded voided : InvoiceStatus

-- billing.invoices.
pub record Invoice : Type 0 where
  pub order_id : ℕ
  pub version : ℕ
  pub total_amount : ℤ
  pub status : InvoiceStatus
  pub expires_at : ℕ
  pub created_at : ℕ

pub data PaymentStatus : Type 0 where
  created paid failed reversed : PaymentStatus

-- billing.payments.
pub record Payment : Type 0 where
  pub order_id : ℕ
  pub goods_amount : ℤ
  pub delivery_fee : ℤ
  pub seller_amount : ℤ
  pub status : PaymentStatus
  pub receipt_url : String
  pub paid_at : Option ℕ
  pub created_at : ℕ

pub data RefundStatus : Type 0 where
  requested evidence_uploaded refunded overdue : RefundStatus

-- billing.refunds.
pub record Refund : Type 0 where
  pub id : ℕ
  pub order_id : ℕ
  pub amount : ℤ
  pub reason : Option String
  pub status : RefundStatus
  pub due_at : ℕ
  pub buyer_confirmed_at : Option ℕ
  pub created_at : ℕ

-- billing.commission_ledger.
pub record LedgerEntry : Type 0 where
  pub order_id : ℕ
  pub owner_id : ℕ
  pub base_amount : ℤ
  pub rate_bps : ℤ
  pub accrued : ℤ
  pub discount : ℤ
  pub payable : ℤ
  pub created_at : ℕ

-- platform.mutation_receipts; a null resource is `none`.
pub record Receipt : Type 0 where
  pub operation_key : String
  pub resource_id : Option ℕ
  pub created_at : ℕ

-- The event payloads of internal/eventcatalog/payload.go that the modelled code writes.
pub data Payload : Type 0 where
  order_created :
      (store_id buyer_id : String)
      → (goods_amount delivery_fee total_amount : ℤ) → (item_count : ℕ) → (urgent : Bool)
      → (due_at : ℕ) → Payload
  order_status_changed :
      EventName
      → (store_id buyer_id : String) → (from to : Status) → Actor
      → Source
      → (reason : String) → Payload
  sla_escalated : (store_id buyer_id reason : String) → (due_at : ℕ) → Payload
  offer_created : (store_id product_id : String) → (price : ℤ) → (declared_qty : String) → Payload
  offer_updated :
      (store_id product_id : String) → (price : ℤ) → (declared_qty : String) → OfferStatus → Payload
  catalog_requested : (store_id name unit : String) → (due_at : ℕ) → Payload
  catalog_request_resolved :
      (store_id : String) → RequestStatus → (product_id reject_reason : String) → Payload
  feedback_created :
      (store_id buyer_id : String)
      → (had_problem : Bool) → (tags : List String) → (channel : String) → Payload
  became_overdue : (order_id : String) → (amount : ℤ) → (due_at : ℕ) → Payload

-- platform.outbox as the writer fills it.
pub record OutboxRow : Type 0 where
  pub aggregate_id : String
  pub payload : Payload

pub record Db : Type 0 where
  pub orders : List Order
  pub items : List OrderItem
  pub events : List OrderEvent
  pub tokens : List ConfirmToken
  pub offers : List Offer
  pub products : List Product
  pub requests : List CatalogRequest
  pub feedback : List FeedbackRow
  pub tariffs : List Tariff
  pub stores : List StoreState
  pub districts : List ℤ
  pub invoices : List Invoice
  pub payments : List Payment
  pub refunds : List Refund
  pub ledger : List LedgerEntry
  pub receipts : List Receipt
  pub outbox : List OutboxRow
  -- The supply of new ids.
  pub next_id : ℕ

-- `time.Hour`.
abbrev pub hour : ℕ
hour = 3600 * 1000000000
