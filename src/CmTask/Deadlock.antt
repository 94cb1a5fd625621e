-- ===== src/CmTask/Deadlock.antt =====
-- A callback that starts a task, as the callbacks of the example at the end of
-- common/cm_task.c do.
use jklibs.Common.{ℕ, suc, ◌≡◌, ◌≢◌, refl, true, false, List, [], ◌∷◌, ◌++◌, some, arith, ◌==◌}
use jklibs.Common.Outcome.{Outcome, fault}
use jklibs.CmList.{del_item}
use jklibs.CmTask.{Tasks, g_task_list, start, due, poll_task, poll_from, poll}
use jklibs.CmTask.Poll.{Waiting}

-- display_result1 and display_result2, where they do not stop
abbrev pub restart : ℕ → ℕ → ℕ → ℕ → ℕ → Tasks → Outcome Tasks
restart task inter now run args s = start s task inter (some run) args now

start-locked :
    (s : Tasks) (task inter run args now : ℕ)
    → s.locked ≡ true
    → task ≢ 0
    → start s task inter (some run) args now ≡ fault
unfolding start
start-locked s task inter run args now l t =
    let zero_no : (task == 0) ≡ false = ground arith in rw (zero_no, l) refl

poll_task-restart :
    (s : Tasks) (x task inter now run time : ℕ)
    → s.locked ≡ true
    → due time (s.task x) ≡ some run
    → task ≢ 0
    → poll_task (restart task inter now) time s x ≡ fault
unfolding poll_task
poll_task-restart s x task inter now run time l e t =
    let held = record s {
      heap = del_item s.heap x;
      calls = s.calls ++ ((run, (s.task x).args) ∷ []);
    } in
    rw (e, poll_task) (start-locked held task inter run (s.task x).args now l t)

-- Callbacks run while the mutex is held: a poll whose first task is due and starts a task again
-- never returns.
pub poll-restart :
    (clock : ℕ → ℕ) (fuel : ℕ) (s : Tasks) (x : ℕ) (xs : List ℕ) (task inter now run : ℕ)
    → Waiting s (x ∷ xs)
    → due (clock 0) (s.task x) ≡ some run
    → task ≢ 0
    → poll (restart task inter now) clock (suc fuel) s ≡ fault
unfolding poll poll_from
poll-restart clock fuel s x xs task inter now run w e t =
    let d = w.ring.different in
    let begin = w.ring.linked.0 in
    let here : (x == g_task_list) ≡ false = ground arith in
    let stuck =
      poll_task-restart (record s { locked = true }) x task inter now run (clock 0) refl e t in
    rw (w.free, begin, here, stuck) refl
