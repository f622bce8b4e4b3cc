-- ===== src/Samples.antt =====
-- A small database for the tests and the witnesses.
use meatvo_app.Base.{[], codes, false, none, some, true, ℕ, ◌∷◌}
use meatvo_app.Status.Names.{Status, confirmed, delivered, payment_pending}
use meatvo_app.Store.{
  Coupon, Order, OrderItem, Payment, PaymentStatus, ReconStatus, Store, TransactionStatus,
  no_failure, online, percent,
}
use meatvo_app.Pricing.Product.{Product}

abbrev pub chicken : Product
chicken = record {
  id = 7;
  price = 40000;
  base_price_per_kg = none;
  weight_variants = 500 ∷ [];
  stock = 10;
  active = true;
  unit = none;
}

abbrev pub welcome : Coupon
welcome = record {
  id = 4;
  code = codes "NEW10";
  discount_type = percent;
  discount_value = 1000;
  min_order_value = 20000;
  max_uses = some 100;
  used_count = 3;
  active = true;
}

abbrev pub two_packs : OrderItem
two_packs = record {
  id = 11;
  product_id = 7;
  quantity = 2;
  price = 20000;
  ordered_weight_g = some 1000;
  action = none;
  weighed = none;
}

abbrev pub order_in : Status → PaymentStatus → Order
order_in status payment_status = record {
  customer_id = 5;
  status = status;
  payment_mode = online;
  payment_status = payment_status;
  recon_status = ReconStatus.pending;
  total_amount = 430000000;
  weight_refund = 0;
  coupon_id = some 4;
  coupon_released = false;
  items = two_packs ∷ [];
  assignment = none;
  failure = no_failure;
}

abbrev pub payment_in : TransactionStatus → Payment
payment_in status = record {
  order_id = 1;
  status = status;
  is_cashfree = true;
  session = codes "s3";
  amount = 43000;
}

abbrev pub store_of : Order → TransactionStatus → ℕ → Store
store_of order status stock = record {
  orders = (1, order) ∷ [];
  products = (7, record chicken { stock = stock }) ∷ [];
  coupons = (4, welcome) ∷ [];
  payments = (3, payment_in status) ∷ [];
  refunds = [];
  movements = [];
  reconciliations = [];
  earnings = [];
  partners = (8, record { is_online = true; approved = true; position = none }) ∷ [];
  tasks = [];
}

-- The order is waiting for its payment.
abbrev pub unpaid : Store
unpaid = store_of (order_in payment_pending PaymentStatus.pending) TransactionStatus.initiated 10

-- The payment has succeeded.
abbrev pub paid_up : Store
paid_up = store_of (order_in confirmed PaymentStatus.paid) TransactionStatus.success 8

-- The order was delivered.
abbrev pub finished : Store
finished = store_of (order_in delivered PaymentStatus.paid) TransactionStatus.success 8
