-- ===== src/Dispatch/Chain.antt =====
-- The chain of an order's timers: `scheduleAssignmentTimeout` of
-- backend/src/services/assignment.service.js.
use meatvo_app.Base.{lookup, none, suc, zero, ℕ, ◌<◌, ◌≡◌, ◌⊎◌}
use meatvo_app.Dispatch.World.{World, max_assignment_attempts}
use meatvo_app.Dispatch.Batch.{Distance}
use meatvo_app.Dispatch.Eligible.{Score}
use meatvo_app.Dispatch.Assign.{attempts_of}
use meatvo_app.Dispatch.Timeout.{fire}

-- The timer of the order has fired so many times, one after the other.
abbrev pub fires : Distance → Score → ℕ → ℕ → World → World
fires distance score k zero w = w
fires distance score k (suc n) w = fire distance score k (fires distance score k n w)

-- No timer is set; or one attempt more was counted, and there were fewer than the most before.
abbrev IsProgress : ℕ → World → World → Type 0
IsProgress k w v =
    (lookup k v.timers ≡ none)
    ⊎ ((attempts_of k v ≡ suc (attempts_of k w)) × (attempts_of k w < max_assignment_attempts))
