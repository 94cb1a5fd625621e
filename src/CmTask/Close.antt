-- ===== src/CmTask/Close.antt =====
-- What `cm_task_deinit` does to the sequence of tasks.
use jklibs.Common.{ℕ, zero, suc, ◌≤◌, ◌≡◌, refl, false, List, [], ◌∷◌, arith, ◌==◌, length}
use jklibs.Common.Outcome.{done}
use jklibs.CmList.{Heap, del_item}
use jklibs.CmList.Ring.{IsRing, del_item-IsRing}
use jklibs.CmTask.{Tasks, g_task_list, deinit_from, task_deinit}
use jklibs.CmTask.Poll.{Waiting, front, next-front, first-front}

deinit_from-IsRing :
    (fuel : ℕ) (h : Heap) (xs : List ℕ)
    → IsRing h g_task_list xs
    → length xs ≤ fuel
    → (h2 : Heap) × (deinit_from fuel h (front xs) (h.next (front xs)) ≡ done h2)
      × IsRing h2 g_task_list []
unfolding deinit_from
deinit_from-IsRing zero h [] r f = (h, refl, r)
deinit_from-IsRing (suc fuel) h [] r f = (h, refl, r)
deinit_from-IsRing zero h (x ∷ xs) r f = absurd (omega arith)
deinit_from-IsRing (suc fuel) h (x ∷ xs) r f =
    let d = r.different in
    let here : (x == g_task_list) ≡ false = ground arith in
    let (h2, ends, empty) =
      deinit_from-IsRing fuel (del_item h x) xs (del_item-IsRing h g_task_list [] x xs r)
        (omega arith) in
    (h2, rw (here, next-front h [] x xs r) ends, empty)

-- `cm_task_deinit` takes every task off, in as many rounds as there are tasks; nothing is run.
pub task_deinit-Waiting :
    (fuel : ℕ) (s : Tasks) (xs : List ℕ)
    → Waiting s xs
    → length xs ≤ fuel
    → (after : Tasks) × (task_deinit fuel s ≡ done after)
      × Waiting after []
      × (after.calls ≡ s.calls)
unfolding task_deinit
task_deinit-Waiting fuel s xs w f =
    let (h2, ends, empty) = deinit_from-IsRing fuel s.heap xs (w.ring) f in
    (
      record s { heap = h2 },
      rw (w.free, first-front s.heap xs (w.ring), ends) refl,
      record { ring = empty; free = w.free },
      refl,
    )
