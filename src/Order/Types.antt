-- ===== src/Order/Types.antt =====
-- types/catalog.types.ts and types/order.types.ts, as far as the cart uses them. A price is a count
-- of thousandths and not negative, as in `JsNumber`.
use g_manager.Common.{ℕ, String, Bool, Option, List}

pub data ItemType : Type 0 where
  product service : ItemType

pub record CatalogItem : Type 0 where
  pub id : String
  pub name : String
  pub description : Option String
  pub item_type : ItemType
  pub price : ℕ
  pub duration_minutes : Option ℕ
  pub active : Bool
  pub version : ℕ
  pub deleted_at : Option String

pub data OrderStatus : Type 0 where
  created in_progress ready completed cancelled : OrderStatus

pub record OrderItem : Type 0 where
  pub product_id : String
  pub quantity : ℕ
  pub unit_price : ℕ
  pub line_total : ℕ

pub record Order : Type 0 where
  pub id : String
  pub customer_id : String
  pub handled_by : Option String
  pub status : OrderStatus
  pub total_price : ℕ
  pub order_items : List OrderItem
  pub version : ℕ

-- A line of CreateOrderInput.
pub record OrderLine : Type 0 where
  pub product_id : String
  pub quantity : ℕ
