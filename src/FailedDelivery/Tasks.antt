-- ===== src/FailedDelivery/Tasks.antt =====
-- The tasks of the administrators: `createAdminTask` and `resolveAdminTask` of
-- backend/src/services/failedDelivery.service.js, and backend/src/services/adminTask.service.js.
use meatvo_app.Base.{
  Bool, List, Option, [], any, arith, false, filter, if◌then◌else◌, length, none, refl, true, ℕ,
  ◌&&◌, ◌==◌, ◌∷◌, ◌≡◌,
}
use meatvo_app.Store.{AdminTask, Store, TaskType, assignment_failed}

abbrev pub task_eq : TaskType → TaskType → Bool
task_eq TaskType.failed_delivery TaskType.failed_delivery = true
task_eq assignment_failed assignment_failed = true
task_eq _ _ = false

-- `order_id = $1 AND task_type = $2 AND status = 'open'`
abbrev pub is_open_task : TaskType → ℕ → AdminTask → Bool
is_open_task k i t = t.is_open && (t.order_id == i && task_eq k t.task_type)

-- `createAdminTask`, with `awaitingReturn` of the payload.
unfoldable pub create_admin_task : TaskType → ℕ → Bool → Store → Store
create_admin_task task_type order_id awaiting_return s = record s {
  tasks =
      record {
        task_type = task_type;
        order_id = order_id;
        is_open = true;
        resolved_by = none;
        awaiting_return = awaiting_return;
      }
      ∷ s.tasks;
}

-- `UPDATE admin_tasks ... WHERE` the task of the order is open.
abbrev pub update_open : TaskType → ℕ → (AdminTask → AdminTask) → List AdminTask → List AdminTask
update_open k i f [] = []
update_open k i f (t ∷ tasks) = (if is_open_task k i t then f t else t) ∷ update_open k i f tasks

-- `resolveAdminTask`
unfoldable pub resolve_admin_task : TaskType → ℕ → Option ℕ → Store → Store
resolve_admin_task task_type order_id admin_user_id s = record s {
  tasks =
      update_open task_type order_id
        (λ t. record t { is_open = false; resolved_by = admin_user_id }) s.tasks;
}

-- `createOpenAdminTask`
unfoldable pub create_open_admin_task : TaskType → ℕ → Store → Store
unfolding create_admin_task
create_open_admin_task task_type order_id s =
    if any (is_open_task task_type order_id) s.tasks
    then s
    else create_admin_task task_type order_id false s

-- `resolveAdminTaskByOrder`, with whether a task was open.
unfoldable pub resolve_admin_task_by_order : TaskType → ℕ → Option ℕ → Store → Store × Bool
unfolding resolve_admin_task
resolve_admin_task_by_order task_type order_id admin_user_id s = (
  resolve_admin_task task_type order_id admin_user_id s,
  any (is_open_task task_type order_id) s.tasks,
)

-- How many tasks of a kind are open for an order.
abbrev pub open_count : TaskType → ℕ → List AdminTask → ℕ
open_count k i tasks = length (filter (is_open_task k i) tasks)

pub task_eq_refl : (k : TaskType) → task_eq k k ≡ true
task_eq_refl TaskType.failed_delivery = refl
task_eq_refl assignment_failed = refl

-- Closing the open tasks of an order leaves it none of that kind.
pub closed_count :
    (k : TaskType) (i : ℕ) (r : Option ℕ) (tasks : List AdminTask)
    → open_count k i (update_open k i (λ t. record t { is_open = false; resolved_by = r }) tasks)
      ≡ 0
closed_count k i r [] = refl
closed_count k i r (t ∷ tasks) = ground (arith, closed_count k i r tasks)

-- Closing the tasks of an order leaves the count of every other order.
pub other_count :
    (k : TaskType) (i j : ℕ) (r : Option ℕ) (tasks : List AdminTask)
    → (i == j) ≡ false
    → open_count k j (update_open k i (λ t. record t { is_open = false; resolved_by = r }) tasks)
      ≡ open_count k j tasks
other_count k i j r [] h = refl
other_count k i j r (t ∷ tasks) h = ground (arith, other_count k i j r tasks h)

-- A note on the payload of the open tasks leaves the count of every order.
pub noted_count :
    (k : TaskType) (i j : ℕ) (tasks : List AdminTask)
    → open_count k j (update_open k i (λ t. record t { awaiting_return = false }) tasks)
      ≡ open_count k j tasks
noted_count k i j [] = refl
noted_count k i j (t ∷ tasks) = ground (arith, noted_count k i j tasks)
