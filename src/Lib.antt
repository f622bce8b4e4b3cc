-- ===== src/Lib.antt =====
-- The order core of Meatvo, a meat delivery shop: the Express server under backend/src, from the
-- cart to the delivered or cancelled order, and the lockout of accounts.
--
-- How the parts interact. A checkout (modules/orders/orders.controller.js) turns the cart that Redis
-- holds into rows of orders and order_items; a cash order is confirmed at once, an online one waits
-- for its payment, whose success (modules/payments/payment-success.js) confirms the order and takes
-- its stock (payment-stock.js). From then on the lifecycle service moves the order along the
-- enhanced state machine, each move behind four guards; packing reconciles the weights and refunds
-- first, and a cancellation gives stock and coupon back before it is tried as a move. A packed order
-- is given to a rider (services/assignment.service.js), alone or in a batch of near ones
-- (order-batcher.js), with a timer that looks for another rider; the rider accepts, rejects or
-- delivers it (modules/delivery/delivery.controller.js), or reports a failed delivery, which an
-- administrator resolves (services/failedDelivery.service.js). What is paid back goes to the
-- payment gateway refund by refund (services/cashfreeRefund.service.js). All of them work on one
-- database, which is a record here: each operation is a function from the database to
-- the database, or to a result where the code may throw. An exception inside a transaction yields
-- no new database; an exception behind a committed transaction keeps what it wrote.
--
-- Files, with the source below backend/src:
--   Base: names of the libraries, tests, lists and maps with numeric keys, results, ASCII texts.
--   Status: utils/orderStatus.js (Names: ORDER_STATUS; Table: ORDER_STATUS_TRANSITIONS,
--     normalizeStatus, canTransition; Runs: paths through the table; Assignment:
--     getAssignmentStatus) and utils/customerOrderStatus.util.js (Customer).
--   Machine: utils/enhancedOrderStateMachine.js (Rules: STATE_TRANSITIONS, TRANSITION_ACTORS and
--     their tests; Actions: STATE_ACTIONS; Notifications: STATE_NOTIFICATIONS; Interpolate:
--     interpolate).
--   Store: the rows of db/schema.sql that the services read and write.
--   Pricing: utils/productPricing.util.js and weightBasedProduct.util.js (Product),
--     orderPricing.util.js with the charges of storeSettings.util.js (Delivery),
--     modules/coupons/coupons.service.js with couponRelease.util.js (Coupon, Redemption).
--   Payment: modules/payments/payment-stock.js (Stock, Conservation) and payment-success.js
--     (Success, Settled).
--   Lifecycle: services/orderLifecycle.service.js (Transition: transitionOrderState and
--     handleStateActions; Guards, Entered; Cancel: cancelOrderLifecycle and the customer's cancelOrder;
--     Returned, Cancelled; Paid and History: sequences of operations; Timeline: getOrderTimeline
--     and getOrderActions).
--   Checkout: modules/cart (Cart) and createOrder of modules/orders/orders.controller.js
--     (Request, Create, Placed, Limits).
--   Packing: services/weightReconciliation.service.js (Reconcile, Balance) and
--     packingWeightReconciliation.service.js (Rows, Lines, Measured, Kept, Packed, Flow,
--     Settled).
--   Hours: utils/storeHours.util.js and constants/storeAcceptanceMode.constants.js (Availability,
--     Circle).
--   Routes: middlewares/orderState.middleware.js (Guard, Agree) and updateOrderStatus and
--     applyCoupon of modules/orders/orders.controller.js (Orders, Statuses, Moved, Coupons).
--   Lockout: security/account-lockout.service.js (Account, BruteForce, Expiry).
--   FailedDelivery: services/failedDelivery.service.js, adminTask.service.js and
--     constants/failedDelivery.constants.js (Words, Tasks, Handlers; Marked, Resolved: when the
--     handlers succeed; Cycle, Run: sequences of them; Counted: the two counts of a rider's orders).
--   Refunds: services/cashfreeRefund.service.js (Rows: order_partial_refunds; Gateway:
--     createRefund of modules/payments/cashfree.service.js; Submit: submitPartialRefundToGateway;
--     Batch: the operations that call it; Effect, Once, Runs, Stranded).
--   Dispatch: services/assignment.service.js (Eligible, Assign, Timeout) and order-batcher.js (Batch,
--     Windows) on the state of World, with the counts of utils/deliveryPartner.util.js; Load, Capped,
--     Calls, Reach: the cap on a rider's orders; Attempts, Chain: the timers; Closed: the windows;
--     Nearest: the rider chosen at a timeout; Queue, Queued: services/dispatch.service.js.
--   Delivery: modules/delivery/delivery.controller.js (Handlers: acceptOrder, rejectOrder and
--     updateDeliveryOrderStatus; Handed, Rejected) and services/deliveryProof.service.js (Otp).
--   Abuse: security/api-abuse.service.js (Patterns: its regular expressions; Requests: the
--     analyses; Blocks: analyzeRequest and the blocked addresses; Disarmed).
--   Cashfree: modules/payments/cashfree.controller.js and cashfree.service.js, utils/cashfreeWebhook.js
--     (Webhook) and services/payment-reconciliation.service.js (Reconcile); Api: the gateway's answers;
--     Changes: the rows that fail; Handlers: the five handlers; Events, Again, Sessions, Effects,
--     Settled: what they do, once, twice and among the other operations.
--   Samples and the modules named Tests: test data, tests and witnesses.
--
-- Conventions and bounds. Money is in whole paise, and discounts and totals in units of 1/10000
-- paisa, so that a percentage with two decimals is exact; a total is stored in whole paise, as its
-- NUMERIC(10,2) column rounds it; the doubles of the source are modelled by
-- exact arithmetic, rounded where the source rounds. Weights are whole grams, times milliseconds,
-- ids natural numbers. Texts are lists of code points, and trim and toUpperCase are those of ASCII.
-- A status, a role or a payment status outside the tables is kept as a text. weight_variants is the
-- INTEGER[] column of the schema. Every loop is structural recursion, so no fuel is needed. The ids
-- that the database assigns are parameters of createOrder.
--
-- Columns. db/schema.sql makes orders.payment_mode an enum, on which the UPDATE of resolveFailedDelivery
-- fails; the type of the column is an argument of that handler, so that the code behind the UPDATE is
-- stated for a text column. An order's address has both coordinates or neither; where it has none,
-- getOrderCoords and getDeliveryTarget differ, as Number(null) is 0 and Number(undefined) is no number.
--
-- Parameters. The gateway's HTTP requests, the keyed hashes of the delivery codes and of the
-- webhooks, the reading of a JSON text, the age of a payment, the check of a proof's address, the
-- great-circle distance and the score of a rider are arguments of the definitions that use them:
-- these are other programs, cryptography, parts of the language's library, a pattern on storage
-- paths, the clock, and floating-point arithmetic. A rider stands under the id of its user, which
-- is unique. The limits of the dispatch are the defaults of config/businessRules.js; entries of
-- Redis do not expire here. A chain of timers is counted by its firings, of which the attempts
-- allow four at most.
--
-- Not modelled: requests, responses, logs, socket events and notifications; rider earnings'
-- amounts; the tables and handlers of the other modules; the colours and icons of the state
-- machine's display; getLockoutStats and getAbuseStats. Sequences of operations are sequential: two
-- requests that interleave between the statements of one handler are not represented.
pub mod Base
pub mod Status
pub mod Machine
pub mod Pricing
pub mod Store
mod Samples
pub mod Payment
pub mod Lifecycle
pub mod Lockout
pub mod Packing
pub mod Checkout
pub mod Routes
pub mod FailedDelivery
pub mod Refunds
pub mod Dispatch
pub mod Delivery
pub mod Hours
pub mod Abuse
pub mod Cashfree
