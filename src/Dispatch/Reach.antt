-- ===== src/Dispatch/Reach.antt =====
use meatvo_app.Dispatch.Queue.{Times, process_dispatch_queue}
-- Runs of the calls of backend/src/services/assignment.service.js and dispatch.service.js and of the
-- timers.
use meatvo_app.Base.{Bool, Option, ℕ}
use meatvo_app.Dispatch.World.{World}
use meatvo_app.Dispatch.Batch.{Distance}
use meatvo_app.Dispatch.Eligible.{Score}
use meatvo_app.Dispatch.Assign.{
  assign_order_to_partner, ensure_order_assigned, manual_assign_order_to_partner,
  retry_assign_order_to_partner,
}
use meatvo_app.Dispatch.Timeout.{AutoAccept, accepted_by, fire, reassign}

-- The world after a timer's attempt to accept, by what the attempt answered.
abbrev pub after_auto : Distance → Score → ℕ → ℕ → World → AutoAccept → World
after_auto distance score k rider w (accepted_by _) = w
after_auto distance score k rider w _ = reassign distance score k rider w

-- One call, or one timer that fires. The windows of the batches are not closed here.
pub data Call (distance : Distance) (score : Score) (w : World) : World → Type 0 where
  assign :
      (k : ℕ) (x : Option ℕ)
      → Call distance score w (assign_order_to_partner distance score k x w).0
  retry :
      (k : ℕ) (x : Option ℕ) (b : Bool)
      → Call distance score w (retry_assign_order_to_partner distance score k x b w).0
  manual : (k rider : ℕ) → Call distance score w (manual_assign_order_to_partner k rider w).0
  ensure : (k : ℕ) → Call distance score w (ensure_order_assigned distance score k w).0
  timeout : (k : ℕ) → Call distance score w (fire distance score k w)
  queue :
      (now : ℕ) (times : ℕ → Times) (trigger : Option ℕ)
      → Call distance score w (process_dispatch_queue distance score now times trigger w).0

pub data Calls (distance : Distance) (score : Score) (w : World) : World → Type 0 where
  start : Calls distance score w w
  step :
      {u v : World} → Calls distance score w u → Call distance score u v → Calls distance score w v
