-- ===== src/CmTask.antt =====
-- common/cm_task.c: timers, kept in a ring of common/cm_list.c and polled. A task is the address
-- of its first member, its list head; 0 is NULL, and the head of the list of tasks has an address
-- of its own. The mutex is not recursive: who locks it while holding it waits for ever, which is
-- the outcome `fault`. What a callback does is a parameter, and so is the clock: the time at each
-- reading of it.
pub mod Poll
pub mod Deadlock
pub mod Close
mod Tests
use jklibs.Common.{
  ℕ, zero, suc, ◌+◌, ◌%◌, ◌^◌, ◌==◌, leb, if◌then◌else◌, Bool, true, false, List, [], ◌∷◌, ◌++◌,
  Option, none, some,
}
use jklibs.Common.Outcome.{Outcome, done, err, fault, ◌>>=◌}
use jklibs.CmList.{Heap, init_list_head, add_front, del_item}

-- struct cm_task without its list head
pub record Task : Type 0 where
  pub run : Option ℕ
  pub args : ℕ
  pub inter : ℕ

-- The memory with the tasks, whether `list_mutex` is held, and the calls of callbacks so far.
pub record Tasks : Type 0 where
  pub heap : Heap
  pub task : ℕ → Task
  pub locked : Bool
  pub calls : List (ℕ × ℕ)

-- The address of g_task_list.head.
abbrev pub g_task_list : ℕ
g_task_list = 1

-- cm_task_init
unfoldable pub task_init : Tasks → Tasks
task_init s = record s { heap = init_list_head s.heap g_task_list }

-- The task as `cm_task_start` fills it in at the time `now`.
abbrev pub fill_task : Tasks → ℕ → ℕ → ℕ → ℕ → ℕ → Tasks
fill_task s task inter run args now =
    let filled : Task = record { run = some run; args = args; inter = (inter + now) % 2 ^ 64 } in
    record s {
      heap = init_list_head s.heap task;
      task = λ n. if n == task then filled else s.task n;
    }

-- cm_task_start
unfoldable pub start : Tasks → ℕ → ℕ → Option ℕ → ℕ → ℕ → Outcome Tasks
start s task inter none args now = if task == 0 then err 1 else err 2
start s task inter (some run) args now =
    let s = fill_task s task inter run args now in
    if task == 0
    then err 1
    else if s.locked
    then fault
    else done (record s { heap = add_front s.heap task g_task_list })

-- cm_task_cancel
unfoldable pub cancel : Tasks → ℕ → Outcome Tasks
cancel s task =
    if task == 0
    then err 1
    else if s.locked
    then fault
    else done (record s { heap = del_item s.heap task })

-- The loop of `cm_task_deinit`, from the node `tmp` with `p` behind it.
unfoldable pub deinit_from : ℕ → Heap → ℕ → ℕ → Outcome Heap
deinit_from zero h tmp p = if tmp == g_task_list then done h else fault
deinit_from (suc fuel) h tmp p =
    let h2 = del_item h tmp in
    let rest = deinit_from fuel h2 p (h2.next p) in if tmp == g_task_list then done h else rest

unfoldable pub task_deinit : ℕ → Tasks → Outcome Tasks
task_deinit fuel s =
    let first = s.heap.next g_task_list in
    if s.locked
    then fault
    else (deinit_from fuel s.heap first (s.heap.next first) >>= λ h. done (record s { heap = h }))

-- What the task runs at the time `now`, if it is due.
unfoldable pub due : ℕ → Task → Option ℕ
due now t = if leb t.inter now then t.run else none

module _ (callback : ℕ → ℕ → Tasks → Outcome Tasks) where
  -- The body of the loop of `cm_task_poll`: a task that is due is taken off the list and run.
  unfoldable pub poll_task : ℕ → Tasks → ℕ → Outcome Tasks
  poll_task now s tmp = elim (due now (s.task tmp)) [
    | none ↦ done s
    | some run ↦ callback run (s.task tmp).args (record s {
      heap = del_item s.heap tmp;
      calls = s.calls ++ ((run, (s.task tmp).args) ∷ []);
    })
  ]

  -- The loop from the node `tmp` with `p` behind it, the clock read for the i-th time.
  unfoldable pub poll_from : (ℕ → ℕ) → ℕ → ℕ → Tasks → ℕ → ℕ → Outcome Tasks
  poll_from clock zero i s tmp p = if tmp == g_task_list then done s else fault
  poll_from clock (suc fuel) i s tmp p =
      let rest =
        poll_task (clock i) s tmp >>= λ s2. poll_from clock fuel (i + 1) s2 p (s2.heap.next p) in
      if tmp == g_task_list then done s else rest

  -- cm_task_poll
  unfoldable pub poll : (ℕ → ℕ) → ℕ → Tasks → Outcome Tasks
  poll clock fuel s =
      let first = s.heap.next g_task_list in
      if s.locked
      then fault
      else (poll_from clock fuel 0 (record s { locked = true }) first (s.heap.next first) >>= λ s2.
          done (record s2 { locked = false }))
