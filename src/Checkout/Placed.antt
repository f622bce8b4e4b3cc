-- ===== src/Checkout/Placed.antt =====
use meatvo_app.Base.{
  Bool-cases, List, Map, Option-cases, Result-cases, [], ap, arith, false, if◌then◌else◌, inl, inr,
  insert, lookup, lookup-insert, none, ok, refl, some, subst, suc, sym, ℕ, ◌*◌, ◌+◌, ◌-◌, ◌/◌, ◌<◌,
  ◌==◌, ◌∙◌, ◌∷◌, ◌≡◌, ◌≤◌,
}
use meatvo_app.Checkout.Create.{
  all_found, check_cart, check_lines, check_request, coupon_of, create_order, is_cod, order_items,
  place, stored_amount, write_checkout,
}
-- What a checkout that succeeds leaves (`createOrder` of
-- backend/src/modules/orders/orders.controller.js).
use meatvo_app.Status.Names.{confirmed, payment_pending}
use meatvo_app.Store.{
  Order, OrderItem, PaymentStatus, ReconStatus, Store, cod, no_failure, online, stock_of,
}
use meatvo_app.Pricing.Product.{Product}
use meatvo_app.Pricing.Delivery.{StoredSettings, checkout_charge}
use meatvo_app.Pricing.Coupon.{units}
use meatvo_app.Payment.Stock.{first_short, stock_rows}
use meatvo_app.Payment.Conservation.{
  IsDistinct, covered, found, last_item-quantity, ordered, stock_after,
}
use meatvo_app.Checkout.Cart.{Cart}
use meatvo_app.Checkout.Request.{CheckoutRequest, CheckoutSettings, Line}
use meatvo_app.Lifecycle.Paid.{AllPaid, IsPaid}

pub create_parts :
    (i k : ℕ) (r : CheckoutRequest) (settings : CheckoutSettings) (cart cart' : Cart) (s s' : Store)
    → create_order i k r settings cart s ≡ ok (s', cart')
    → (lines : List Line) × (subtotal : ℕ) × (check_cart r cart ≡ ok lines)
      × (check_lines lines s.products ≡ ok subtotal)
      × (s' ≡ write_checkout i r settings.charges subtotal (order_items k lines s.products) s)
      × (cart' ≡ [])
unfolding create_order place
create_parts i k r settings cart cart' s s' h = elim (Result-cases (check_request r settings)) [
  | inr (x, e) ↦ absurd (ground arith)
  | inl (u, e) ↦ elim (Result-cases (check_cart r cart)) [
    | inr (x, e') ↦ absurd (ground arith)
    | inl (lines, e') ↦ elim (Result-cases (check_lines lines s.products)) [
      | inr (x, e'') ↦ absurd (ground arith)
      | inl (subtotal, e'') ↦ elim (Bool-cases (all_found lines s.products)) [
        | inr missing ↦ absurd (ground arith)
        | inl found ↦ (lines, subtotal, e', e'', ground arith, ground arith)
      ]
    ]
  ]
]

-- What the items of an order cost.
abbrev pub item_total : List OrderItem → ℕ
item_total [] = 0
item_total (i ∷ items) = i.price * i.quantity + item_total items

check_lines-total :
    (k n : ℕ) (lines : List Line) (products : Map Product)
    → check_lines lines products ≡ ok n
    → n ≡ item_total (order_items k lines products)
check_lines-total k n [] products h = ground arith
check_lines-total k n (l ∷ ls) products h = elim (Option-cases (lookup l.product_id products)) [
  | inl gone ↦ absurd (ground arith)
  | inr (p, at) ↦ elim (Result-cases (check_lines ls products)) [
    | inr (x, e) ↦ absurd (ground arith)
    | inl (m, e) ↦ ground (arith, check_lines-total (suc k) m ls products e)
  ]
]

check_lines-stocked :
    (k n : ℕ) (lines : List Line) (products : Map Product)
    → check_lines lines products ≡ ok n
    → first_short (stock_rows (order_items k lines products) products) ≡ none
check_lines-stocked k n [] products h = refl
check_lines-stocked k n (l ∷ ls) products h = elim (Option-cases (lookup l.product_id products)) [
  | inl gone ↦ absurd (ground arith)
  | inr (p, at) ↦ elim (Result-cases (check_lines ls products)) [
    | inr (x, e) ↦ absurd (ground arith)
    | inl (m, e) ↦ ground (arith, check_lines-stocked (suc k) m ls products e)
  ]
]

-- The order that a checkout writes, and what it takes from the stock: an order paid in cash is
-- CONFIRMED and takes its quantities at once, an online one is PAYMENT_PENDING and takes none; both
-- have found them in stock. The total is the items' price and the delivery charge less the discount, to
-- the nearest paisa.
pub record IsPlaced (i : ℕ) (r : CheckoutRequest) (charges : StoredSettings) (q : Order)
    (s s' : Store) : Type 0 where
  pub row : lookup i s'.orders ≡ some q
  pub owner : q.customer_id ≡ r.customer_id
  pub state :
      (q.status ≡ (if is_cod r.payment_method then confirmed else payment_pending))
      × (q.payment_mode ≡ (if is_cod r.payment_method then cod else online))
      × (q.payment_status ≡ PaymentStatus.pending)
  pub total :
      let amount = item_total q.items + checkout_charge (item_total q.items) charges in
      let exact = units amount - (coupon_of r.coupon_code amount r.customer_id s).1 in
      (paise : ℕ) × (q.total_amount ≡ units paise)
      × (units paise ≤ exact + 5000)
      × (exact < units paise + 5000)
  pub stock :
      (k n : ℕ)
      → IsDistinct q.items
      → stock_of k s ≡ some n
      → (ordered k q.items ≤ n)
        × (stock_of k s' ≡ some (if is_cod r.payment_method then n - ordered k q.items else n))

abbrev pub amount_of : ℕ → StoredSettings → ℕ
amount_of subtotal charges = subtotal + checkout_charge subtotal charges

-- The row that a checkout writes.
abbrev pub order_row : CheckoutRequest → StoredSettings → ℕ → List OrderItem → Store → Order
order_row r charges subtotal items s =
    let coupon = coupon_of r.coupon_code (amount_of subtotal charges) r.customer_id s in
    record {
      customer_id = r.customer_id;
      status = if is_cod r.payment_method then confirmed else payment_pending;
      payment_mode = if is_cod r.payment_method then cod else online;
      payment_status = PaymentStatus.pending;
      recon_status = ReconStatus.pending;
      total_amount = stored_amount (units (amount_of subtotal charges) - coupon.1);
      weight_refund = 0;
      coupon_id = coupon.0;
      coupon_released = false;
      items = items;
      assignment = none;
      failure = no_failure;
    }

pub orders-write_checkout :
    (i : ℕ) (r : CheckoutRequest) (charges : StoredSettings) (subtotal : ℕ) (items : List OrderItem)
    (s : Store)
    → (write_checkout i r charges subtotal items s).orders
      ≡ insert i (order_row r charges subtotal items s) s.orders
unfolding write_checkout
orders-write_checkout i r charges subtotal items s = refl

stock-write_checkout :
    (i k n : ℕ) (r : CheckoutRequest) (charges : StoredSettings) (subtotal : ℕ)
    (items : List OrderItem) (s : Store)
    → first_short (stock_rows items s.products) ≡ none
    → IsDistinct items
    → stock_of k s ≡ some n
    → (ordered k items ≤ n)
      × (stock_of k (write_checkout i r charges subtotal items s)
          ≡ some (if is_cod r.payment_method then n - ordered k items else n))
unfolding write_checkout
stock-write_checkout i k n r charges subtotal items s fine d e =
    let taken =
      stock_after (λ r. r.stock - r.quantity) k items s.products
      ∙ ground (arith, last_item-quantity k items d) in
    (
      covered k n items s.products d fine e,
      elim (Bool-cases (is_cod r.payment_method)) [
        | inl cash ↦ rw (cash, write_checkout) taken
        | inr online_payment ↦ rw (online_payment, write_checkout) e
      ],
    )

nearest :
    (n : ℕ) → (units ((n + 5000) / 10000) ≤ n + 5000) × (n < units ((n + 5000) / 10000) + 5000)
nearest n = (omega arith, omega arith)

-- A checkout that succeeds empties the cart and has written an order with the request's customer,
-- CONFIRMED for cash on delivery and else PAYMENT_PENDING, whose total is the price of its items and
-- the delivery charge less the coupon's discount, rounded to whole paise; its quantities were in stock (no product standing in
-- two of its items), and are taken from it at once for cash on delivery alone.
pub create_order_places :
    (i k : ℕ) (r : CheckoutRequest) (settings : CheckoutSettings) (cart cart' : Cart) (s s' : Store)
    → create_order i k r settings cart s ≡ ok (s', cart')
    → (cart' ≡ []) × ((q : Order) × IsPlaced i r settings.charges q s s')
create_order_places i k r settings cart cart' s s' h =
    let (lines, subtotal, _, checked, left, emptied) =
      create_parts i k r settings cart cart' s s' h in
    let items = order_items k lines s.products in
    let q = order_row r settings.charges subtotal items s in
    let cost : subtotal ≡ item_total items =
      check_lines-total k subtotal lines s.products checked in
    let charges = settings.charges in
    (
      emptied,
      (
        q,
        record {
          row =
              ap (lookup i)
                (ap (λ s. s.orders) left ∙ orders-write_checkout i r charges subtotal items s)
              ∙ (lookup-insert i i q s.orders ∙ ground arith);
          owner = refl;
          state = (refl, refl, refl);
          total =
              let exact : ℕ → ℕ = λ n.
                units (amount_of n charges)
                - (coupon_of r.coupon_code (amount_of n charges) r.customer_id s).1 in
              let t = exact (item_total items) in
              (
                (t + 5000) / 10000,
                ap (λ n. stored_amount (exact n)) cost,
                (nearest t).0,
                (nearest t).1,
              );
          stock = λ j n d e.
              let (enough_stock, taken) =
                stock-write_checkout i j n r charges subtotal items s
                  (check_lines-stocked k subtotal lines s.products checked) d e in
              (enough_stock, ap (stock_of j) left ∙ taken);
        },
      ),
    )

order_row-IsPaid :
    (r : CheckoutRequest) (charges : StoredSettings) (subtotal : ℕ) (items : List OrderItem)
    (s : Store)
    → IsPaid (order_row r charges subtotal items s)
order_row-IsPaid r charges subtotal items s mode past =
    elim (Bool-cases (is_cod r.payment_method)) [
      | inl cash ↦ absurd (ground arith)
      | inr online_payment ↦ absurd (ground arith)
    ]

-- A checkout keeps every online order past confirmation settled.
pub create-AllPaid :
    (i k : ℕ) (r : CheckoutRequest) (settings : CheckoutSettings) (cart cart' : Cart) (s s' : Store)
    → create_order i k r settings cart s ≡ ok (s', cart')
    → AllPaid s
    → AllPaid s'
create-AllPaid i k r settings cart cart' s s' h all j o there =
    let (lines, subtotal, _, _, left, _) = create_parts i k r settings cart cart' s s' h in
    let items = order_items k lines s.products in
    let q = order_row r settings.charges subtotal items s in
    let rows =
      ap (lookup j)
        (ap (λ s. s.orders) left ∙ orders-write_checkout i r settings.charges subtotal items s)
      ∙ lookup-insert i j q s.orders in
    elim (Bool-cases (i == j)) [
      | inl same ↦
          let e : o ≡ q = ground arith in
          subst IsPaid (sym e) (order_row-IsPaid r settings.charges subtotal items s)
      | inr differ ↦ all j o (ground arith)
    ]
