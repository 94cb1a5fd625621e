-- ===== src/CmTask/Tests.antt =====
-- Runs with two tasks, at the addresses 100 and 200.
use jklibs.Common.{ℕ, ◌+◌, ◌≡◌, refl, false, [], ◌∷◌, ◌++◌, none, some, arith}
use jklibs.Common.Outcome.{Outcome, done, err, fault}
use jklibs.CmList.{Heap, init_list_head, add_front}
use jklibs.CmList.Ring.{init_list_head-IsRing, add_front-IsRing}
use jklibs.CmTask.{Tasks, g_task_list, task_init, start, due, poll}
use jklibs.CmTask.Poll.{Waiting, poll-Waiting, kept, called}
use jklibs.CmTask.Deadlock.{restart, poll-restart}

abbrev empty : Heap
empty = init_list_head (record { next = λ n. 0; prev = λ n. 0 }) g_task_list

abbrev two_tasks : Tasks
two_tasks = record {
  heap = add_front (add_front empty 100 g_task_list) 200 g_task_list;
  task = λ n. record { run = some 7; args = n; inter = n };
  locked = false;
  calls = [];
}

two_tasks-Waiting : Waiting two_tasks (200 ∷ (100 ∷ []))
two_tasks-Waiting = record {
  ring =
      add_front-IsRing (add_front empty 100 g_task_list) g_task_list (100 ∷ []) 200
        (add_front-IsRing empty g_task_list [] 100
          (init_list_head-IsRing (record { next = λ n. 0; prev = λ n. 0 }) g_task_list) refl)
        refl;
  free = refl;
}

abbrev silent : ℕ → ℕ → Tasks → Outcome Tasks
silent run args s = done s

abbrev clock : ℕ → ℕ
clock i = 150 + i

null_task : start two_tasks 0 5 (some 7) 0 100 ≡ err 1
unfolding start
null_task = refl

no_callback : start two_tasks 300 5 none 0 100 ≡ err 2
unfolding start
no_callback = refl

empty_list : Waiting (task_init two_tasks) []
unfolding task_init
empty_list = record { ring = init_list_head-IsRing two_tasks.heap g_task_list; free = refl }

poll-Waiting_example :
    (after : Tasks) × (poll silent clock 2 two_tasks ≡ done after)
    × Waiting after (kept clock 0 two_tasks.task (200 ∷ (100 ∷ [])))
    × (after.calls ≡ [] ++ called clock 0 two_tasks.task (200 ∷ (100 ∷ [])))
poll-Waiting_example =
    poll-Waiting silent clock 2 two_tasks (200 ∷ (100 ∷ [])) (λ run args s. refl) two_tasks-Waiting
      (omega arith)

-- At the time 150 the task 100 is due and the task 200 is not.
kept_by_poll : kept clock 0 two_tasks.task (200 ∷ (100 ∷ [])) ≡ 200 ∷ []
unfolding due
kept_by_poll = refl

poll-restart_example : poll (restart 300 5 100) (λ i. 200) 2 two_tasks ≡ fault
poll-restart_example =
    poll-restart (λ i. 200) 1 two_tasks 200 (100 ∷ []) 300 5 100 7 two_tasks-Waiting
      (unfold due in refl) (omega arith)
