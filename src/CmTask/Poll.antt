-- ===== src/CmTask/Poll.antt =====
-- What starting, cancelling and polling do to the sequence of tasks.
use jklibs.Common.{
  ℕ, zero, suc, ◌+◌, ◌%◌, ◌^◌, ◌≤◌, ◌≡◌, ◌≢◌, refl, sym, ap, Bool, true, false, List, [], ◌∷◌, ◌++◌,
  Option, none, some, arith, ◌==◌, leb, if◌then◌else◌, append_assoc, append-nil, length, ◌∙◌, subst,
  inl, inr, Option-cases,
}
use jklibs.Common.Outcome.{Outcome, done}
use jklibs.CmList.{Heap, add_front, del_item, init_list_head}
use jklibs.CmList.Links.{mem, Links, Links-split, mem-append}
use jklibs.CmList.Ring.{IsRing, init_list_head-other, add_front-IsRing, del_item-IsRing}
use jklibs.CmTask.{
  Task, Tasks, fill_task, g_task_list, start, cancel, due, poll_task, poll_from, poll,
}

-- The list of tasks, in its order, and nobody holds the mutex.
pub record Waiting (s : Tasks) (xs : List ℕ) : Type 0 where
  pub ring : IsRing s.heap g_task_list xs
  pub free : s.locked ≡ false

-- A task that is not waiting is put first, due `inter` milliseconds from now.
pub start-Waiting :
    (s : Tasks) (xs : List ℕ) (task inter run args now : ℕ)
    → Waiting s xs
    → task ≢ 0
    → mem task (g_task_list ∷ xs) ≡ false
    → (after : Tasks) × (start s task inter (some run) args now ≡ done after)
      × Waiting after (task ∷ xs)
      × (due now (after.task task) ≡ (if leb ((inter + now) % 2 ^ 64) now then some run else none))
unfolding start due
start-Waiting s xs task inter run args now w t m =
    let zero_no : (task == 0) ≡ false = ground arith in
    (
      (let s2 = fill_task s task inter run args now in
          record s2 { heap = add_front s2.heap task g_task_list }),
      rw (zero_no, w.free) refl,
      record {
        ring =
            add_front-IsRing (init_list_head s.heap task) g_task_list xs task
              (init_list_head-other s.heap g_task_list xs task (w.ring) m) m;
        free = w.free;
      },
      ground arith,
    )

-- A task that is waiting is taken off, whatever its place; the others stay in their order.
pub cancel-Waiting :
    (s : Tasks) (ys : List ℕ) (task : ℕ) (zs : List ℕ)
    → Waiting s (ys ++ (task ∷ zs))
    → task ≢ 0
    → (after : Tasks) × (cancel s task ≡ done after) × Waiting after (ys ++ zs)
unfolding cancel
cancel-Waiting s ys task zs w t =
    let zero_no : (task == 0) ≡ false = ground arith in
    (
      record s { heap = del_item s.heap task },
      rw (zero_no, w.free) refl,
      record { ring = del_item-IsRing s.heap g_task_list ys task zs (w.ring); free = w.free },
    )

-- The tasks that a poll leaves, and the calls that it makes, when the i-th reading of the clock
-- gives `clock i`.
abbrev pub is_due : ℕ → Task → Bool
is_due now t = elim (due now t) [ none ↦ false | some _ ↦ true ]

abbrev pub kept : (ℕ → ℕ) → ℕ → (ℕ → Task) → List ℕ → List ℕ
kept clock i task [] = []
kept clock i task (x ∷ xs) =
    let rest = kept clock (i + 1) task xs in if is_due (clock i) (task x) then rest else x ∷ rest

abbrev pub called : (ℕ → ℕ) → ℕ → (ℕ → Task) → List ℕ → List (ℕ × ℕ)
called clock i task [] = []
called clock i task (x ∷ xs) =
    elim (due (clock i) (task x)) [ none ↦ [] | some run ↦ (run, (task x).args) ∷ [] ]
    ++ called clock (i + 1) task xs

kept-due :
    (clock : ℕ → ℕ) (i : ℕ) (task : ℕ → Task) (x : ℕ) (xs : List ℕ) (o : Option ℕ)
    → due (clock i) (task x) ≡ o
    → kept clock i task (x ∷ xs) ≡ (
        let rest = kept clock (i + 1) task xs in
        if elim o [ none ↦ false | some _ ↦ true ] then rest else x ∷ rest)
kept-due clock i task x xs o e =
    ap
      (λ o.
        let rest = kept clock (i + 1) task xs in
        if elim o [ none ↦ false | some _ ↦ true ] then rest else x ∷ rest)
      e

-- The first node of the rest, or the head.
abbrev pub front : List ℕ → ℕ
front [] = g_task_list
front (x ∷ xs) = x

abbrev pub Quiet : (ℕ → ℕ → Tasks → Outcome Tasks) → Type 0
Quiet callback = (run args : ℕ) (s : Tasks) → callback run args s ≡ done s

pub next-front :
    (h : Heap) (ys : List ℕ) (x : ℕ) (xs : List ℕ)
    → IsRing h g_task_list (ys ++ (x ∷ xs))
    → h.next x ≡ front xs
next-front h ys x xs r =
    let l = subst (Links h g_task_list) (append_assoc ys (x ∷ xs) (g_task_list ∷ [])) (r.linked) in
    first x xs ((Links-split h g_task_list ys x (xs ++ (g_task_list ∷ [])) l).1)
  where
    first : (x : ℕ) (xs : List ℕ) → Links h x (xs ++ (g_task_list ∷ [])) → h.next x ≡ front xs
    first x [] l = l.0
    first x (y ∷ xs) l = l.0

pub first-front : (h : Heap) (xs : List ℕ) → IsRing h g_task_list xs → h.next g_task_list ≡ front xs
first-front h [] r = r.linked.0
first-front h (x ∷ xs) r = r.linked.0

not_head :
    (h : Heap) (ys : List ℕ) (x : ℕ) (xs : List ℕ)
    → IsRing h g_task_list (ys ++ (x ∷ xs))
    → (x == g_task_list) ≡ false
not_head h ys x xs r = let d = r.different in ground (arith, mem-append g_task_list ys (x ∷ xs))

-- The state after the task at `x` has been run.
abbrev ran : Tasks → ℕ → ℕ → Tasks
ran s x run = record s {
  heap = del_item s.heap x;
  calls = s.calls ++ ((run, (s.task x).args) ∷ []);
}

poll_task-none :
    (callback : ℕ → ℕ → Tasks → Outcome Tasks) (now : ℕ) (s : Tasks) (x : ℕ)
    → due now (s.task x) ≡ none
    → poll_task callback now s x ≡ done s
unfolding poll_task
poll_task-none callback now s x e = rw (e, poll_task) refl

poll_task-some :
    (callback : ℕ → ℕ → Tasks → Outcome Tasks) (now : ℕ) (s : Tasks) (x run : ℕ)
    → Quiet callback
    → due now (s.task x) ≡ some run
    → poll_task callback now s x ≡ done (ran s x run)
unfolding poll_task
poll_task-some callback now s x run q e = rw (e, poll_task) (q run (s.task x).args (ran s x run))

poll_from-step :
    (callback : ℕ → ℕ → Tasks → Outcome Tasks) (clock : ℕ → ℕ) (fuel i : ℕ) (s s2 : Tasks)
    (x p front : ℕ)
    → (x == g_task_list) ≡ false
    → poll_task callback (clock i) s x ≡ done s2
    → p ≡ front
    → poll_from callback clock (suc fuel) i s x p
      ≡ poll_from callback clock fuel (i + 1) s2 front (s2.heap.next front)
unfolding poll_from
poll_from-step callback clock fuel i s s2 x p front h e b = rw (h, e, b) refl

-- How the loop ends when the nodes `ys` are behind it and the nodes `xs` before it.
abbrev Polled :
    (ℕ → ℕ → Tasks → Outcome Tasks) → (ℕ → ℕ) → ℕ → Tasks → List ℕ → List ℕ → Outcome Tasks → Type 0
Polled callback clock i s ys xs result =
    (after : Tasks) × (result ≡ done after)
    × IsRing after.heap g_task_list (ys ++ kept clock i s.task xs)
    × (after.calls ≡ s.calls ++ called clock i s.task xs)
    × (after.locked ≡ s.locked)
    × (after.task ≡ s.task)

poll_from-Polled :
    (callback : ℕ → ℕ → Tasks → Outcome Tasks) (clock : ℕ → ℕ) (fuel i : ℕ) (s : Tasks)
    (ys xs : List ℕ)
    → Quiet callback
    → IsRing s.heap g_task_list (ys ++ xs)
    → length xs ≤ fuel
    → Polled callback clock i s ys xs
        (poll_from callback clock fuel i s (front xs) (s.heap.next (front xs)))
poll_from-Polled callback clock zero i s ys [] q r f =
    (s, unfold poll_from in refl, r, sym (append-nil s.calls), refl, refl)
poll_from-Polled callback clock (suc fuel) i s ys [] q r f =
    (s, unfold poll_from in refl, r, sym (append-nil s.calls), refl, refl)
poll_from-Polled callback clock zero i s ys (x ∷ xs) q r f = absurd (omega arith)
poll_from-Polled callback clock (suc fuel) i s ys (x ∷ xs) q r f =
    let here = not_head s.heap ys x xs r in
    let behind = next-front s.heap ys x xs r in
    elim (Option-cases (due (clock i) (s.task x))) [
      | inl e ↦
          let stays : IsRing s.heap g_task_list ((ys ++ (x ∷ [])) ++ xs) =
            subst (IsRing s.heap g_task_list) (sym (append_assoc ys (x ∷ []) xs)) r in
          let (after, ends, ring, calls, free, same) =
            poll_from-Polled callback clock fuel (i + 1) s (ys ++ (x ∷ [])) xs q stays
              (omega arith) in
          let step =
            poll_from-step callback clock fuel i s s x (s.heap.next x) (front xs) here
              (poll_task-none callback (clock i) s x e) behind in
          let left =
            append_assoc ys (x ∷ []) (kept clock (i + 1) s.task xs)
            ∙ ap (λ l. ys ++ l) (sym (kept-due clock i s.task x xs none e)) in
          rw e
            (after, step ∙ ends, subst (IsRing after.heap g_task_list) left ring, calls, free, same)
      | inr (run, e) ↦
          let s2 = ran s x run in
          let (after, ends, ring, calls, free, same) =
            poll_from-Polled callback clock fuel (i + 1) s2 ys xs q
              (del_item-IsRing s.heap g_task_list ys x xs r) (omega arith) in
          let step =
            poll_from-step callback clock fuel i s s2 x (s.heap.next x) (front xs) here
              (poll_task-some callback (clock i) s x run q e) behind in
          let left = ap (λ l. ys ++ l) (sym (kept-due clock i s.task x xs (some run) e)) in
          rw e (
            after,
            step ∙ ends,
            subst (IsRing after.heap g_task_list) left ring,
            calls ∙ append_assoc s.calls _ _,
            free,
            same,
          )
    ]

-- A poll whose callbacks leave the tasks alone ends in as many rounds as there are tasks. It runs
-- those that are due, in the order of the list, takes exactly them off it and releases the mutex.
pub poll-Waiting :
    (callback : ℕ → ℕ → Tasks → Outcome Tasks) (clock : ℕ → ℕ) (fuel : ℕ) (s : Tasks) (xs : List ℕ)
    → Quiet callback
    → Waiting s xs
    → length xs ≤ fuel
    → (after : Tasks) × (poll callback clock fuel s ≡ done after)
      × Waiting after (kept clock 0 s.task xs)
      × (after.calls ≡ s.calls ++ called clock 0 s.task xs)
unfolding poll
poll-Waiting callback clock fuel s xs q w f =
    let begin = first-front s.heap xs (w.ring) in
    let (after, e, ring, calls, free, same) =
      poll_from-Polled callback clock fuel 0 (record s { locked = true }) [] xs q (w.ring) f in
    (
      record after { locked = false },
      rw (w.free, begin, e) refl,
      record { ring = ring; free = refl },
      calls,
    )
