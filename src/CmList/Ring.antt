-- ===== src/CmList/Ring.antt =====
-- Rings as sequences: what the operations on a ring do to the sequence of its nodes.
use jklibs.Common.{
  ℕ, zero, suc, ◌≤◌, ◌≡◌, ◌≢◌, ◌↔◌, ◌⊎◌, inl, inr, refl, sym, ap, true, false, List, [], ◌∷◌, ◌++◌,
  some, arith, ◌==◌, append_assoc, length, ◌∙◌, subst,
}
use jklibs.CmList.{Heap, init_list_head, add_tail, add_front, del_item, is_empty, each, add}
use jklibs.CmList.Links.{
  mem, distinct, Links, Links-split, Links-join, mem-append, distinct-last, add-Links, add-rest,
  del_item-Links, Links-agree, mem-apart, mem-stranger, next_mem,
}

-- The ring at `head` has the nodes of the list behind it, in that order, all different.
pub record IsRing (h : Heap) (head : ℕ) (xs : List ℕ) : Type 0 where
  pub linked : Links h head (xs ++ (head ∷ []))
  pub different : distinct (head ∷ xs) ≡ true

-- A new head is an empty ring.
pub init_list_head-IsRing : (h : Heap) (head : ℕ) → IsRing (init_list_head h head) head []
unfolding init_list_head
init_list_head-IsRing h head = record { linked = ground arith; different = refl }

distinct-snoc :
    (x : ℕ) (xs : List ℕ) → distinct xs ≡ true → mem x xs ≡ false → distinct (xs ++ (x ∷ [])) ≡ true
distinct-snoc x [] d m = refl
distinct-snoc x (y ∷ ys) d m = ground (arith, distinct-snoc x ys, mem-append y ys (x ∷ []))

distinct_rotated :
    (head : ℕ) (xs : List ℕ) → distinct (head ∷ xs) ≡ true → distinct (xs ++ (head ∷ [])) ≡ true
distinct_rotated head xs d = ground (arith, distinct-snoc head xs)

snoc-cases : (xs : List ℕ) → (xs ≡ []) ⊎ ((ys : List ℕ) × (y : ℕ) × (xs ≡ ys ++ (y ∷ [])))
snoc-cases [] = inl refl
snoc-cases (x ∷ xs) = elim (snoc-cases xs) [
  | inl e ↦ inr ([], x, ap (◌∷◌ x) e)
  | inr (ys, y, e) ↦ inr (x ∷ ys, y, ap (◌∷◌ x) e)
]

add_front-add :
    (h : Heap) (item head x : ℕ) → h.next head ≡ x → add_front h item head ≡ add h item head x
unfolding add_front
add_front-add h item head x e = ap (add h item head) e

add_tail-add :
    (h : Heap) (item head y : ℕ) → h.prev head ≡ y → add_tail h item head ≡ add h item y head
unfolding add_tail
add_tail-add h item head y e = ap (λ p. add h item p head) e

-- A node that is not in the ring is put before the first.
pub add_front-IsRing :
    (h : Heap) (head : ℕ) (xs : List ℕ) (item : ℕ)
    → IsRing h head xs
    → mem item (head ∷ xs) ≡ false
    → IsRing (add_front h item head) head (item ∷ xs)
add_front-IsRing h head [] item r m = record {
  linked =
      rw (add_front-add h item head head (r.linked.0))
        (add-Links h item head head (ground arith) (ground arith));
  different = ground arith;
}
add_front-IsRing h head (x ∷ xs) item r m = record {
  linked =
      let d = r.different in
      let two = add-Links h item head x (ground arith) (ground arith) in
      let rest =
        add-rest h item x xs head (ground (arith, mem-append item xs (head ∷ []))) (ground arith)
          (ground (arith, mem-append x xs (head ∷ []))) (r.linked.2) in
      subst (λ k. Links k head (item ∷ (x ∷ (xs ++ (head ∷ [])))))
        (sym (add_front-add h item head x (r.linked.0)))
        (Links-join (add h item head x) head (item ∷ []) x (xs ++ (head ∷ [])) two rest);
  different = let d = r.different in ground arith;
}

add_tail-first :
    (h : Heap) (head item : ℕ)
    → IsRing h head []
    → mem item (head ∷ []) ≡ false
    → IsRing (add_tail h item head) head (item ∷ [])
add_tail-first h head item r m = record {
  linked =
      rw (add_tail-add h item head head (r.linked.1))
        (add-Links h item head head (ground arith) (ground arith));
  different = ground arith;
}

add_tail-behind :
    (h : Heap) (head : ℕ) (ys : List ℕ) (y item : ℕ)
    → IsRing h head (ys ++ (y ∷ []))
    → mem item (head ∷ (ys ++ (y ∷ []))) ≡ false
    → Links (add_tail h item head) head (((ys ++ (y ∷ [])) ++ (item ∷ [])) ++ (head ∷ []))
add_tail-behind h head ys y item r m =
    let d = r.different in
    let l : Links h head (ys ++ (y ∷ (head ∷ []))) =
      subst (Links h head) (append_assoc ys (y ∷ []) (head ∷ [])) (r.linked) in
    let (left, last) = Links-split h head ys y (head ∷ []) l in
    let not_y : item ≢ y = ground (arith, mem-append item ys (y ∷ [])) in
    let two = add-Links h item y head not_y (ground arith) in
    let away : mem y (head ∷ ys) ≡ false =
      ground (arith, mem-append head ys (y ∷ []), distinct-last y ys) in
    let rest = add-rest h item head ys y m away (ground arith) left in
    rw (append_assoc ys, append_assoc ys)
      (subst (λ k. Links k head (ys ++ (y ∷ (item ∷ (head ∷ [])))))
        (sym (add_tail-add h item head y (last.1)))
        (Links-join (add h item y head) head ys y (item ∷ (head ∷ [])) rest two))

-- A node that is not in the ring is put behind the last.
pub add_tail-IsRing :
    (h : Heap) (head : ℕ) (xs : List ℕ) (item : ℕ)
    → IsRing h head xs
    → mem item (head ∷ xs) ≡ false
    → IsRing (add_tail h item head) head (xs ++ (item ∷ []))
add_tail-IsRing h head xs item = elim (snoc-cases xs) [
  | inl e ↦ subst Grows (sym e) (add_tail-first h head item)
  | inr (ys, y, e) ↦ subst Grows (sym e) (λ r m. record {
    linked = add_tail-behind h head ys y item r m;
    different =
        let d = r.different in
        ground (
          arith,
          mem-append head (ys ++ (y ∷ [])) (item ∷ []),
          distinct-snoc item (ys ++ (y ∷ [])),
        );
  })
]
  where
    Grows : List ℕ → Type 0
    Grows xs =
        IsRing h head xs
        → mem item (head ∷ xs) ≡ false
        → IsRing (add_tail h item head) head (xs ++ (item ∷ []))

mem-remove :
    (m : ℕ) (ys : List ℕ) (item : ℕ) (zs : List ℕ)
    → mem m (ys ++ (item ∷ zs)) ≡ false
    → mem m (ys ++ zs) ≡ false
mem-remove m ys item zs h = ground (arith, mem-append m ys (item ∷ zs), mem-append m ys zs)

distinct-remove :
    (ys : List ℕ) (item : ℕ) (zs : List ℕ)
    → distinct (ys ++ (item ∷ zs)) ≡ true
    → distinct (ys ++ zs) ≡ true
distinct-remove [] item zs d = ground arith
distinct-remove (y ∷ ys) item zs d =
    ground (arith, distinct-remove ys item zs, mem-remove y ys item zs)

-- A node of the ring is taken out; the others stay in their order.
pub del_item-IsRing :
    (h : Heap) (head : ℕ) (ys : List ℕ) (item : ℕ) (zs : List ℕ)
    → IsRing h head (ys ++ (item ∷ zs))
    → IsRing (del_item h item) head (ys ++ zs)
del_item-IsRing h head ys item zs r =
    let d = r.different in
    let e = append_assoc ys (item ∷ zs) (head ∷ []) in
    let t : distinct (ys ++ (item ∷ (zs ++ (head ∷ [])))) ≡ true =
      subst (λ l. distinct l ≡ true) e (distinct_rotated head (ys ++ (item ∷ zs)) d) in
    record {
      linked =
          rw (append_assoc ys zs)
            (del_item-Links h head ys item zs head (subst (Links h head) e (r.linked)) d t);
      different = distinct-remove (head ∷ ys) item zs d;
    }

is_empty-value :
    (h : Heap) (head x y z : ℕ)
    → h.next head ≡ x
    → h.next x ≡ y
    → h.next y ≡ z
    → is_empty h head ≡ (y == z)
unfolding is_empty
is_empty-value h head x y z a b c = rw (a, b, c) refl

-- `cm_list_empty` tells whether the ring has no node but the head.
pub is_empty_iff :
    (h : Heap) (head : ℕ) (xs : List ℕ) → IsRing h head xs → (is_empty h head ≡ true) ↔ (xs ≡ [])
is_empty_iff h head [] r =
    let l = r.linked in
    (λ _. refl, λ _. is_empty-value h head head head head (l.0) (l.0) (l.0) ∙ ground arith)
is_empty_iff h head (x ∷ []) r =
    let d = r.different in
    let (a, _, (b, _, _)) = r.linked in
    let value = is_empty-value h head x head x a b a in
    (λ e. absurd (ground (arith, sym value ∙ e)), λ e. absurd (ground arith))
is_empty_iff h head (x ∷ (y ∷ xs)) r =
    let d = r.different in
    let (a, _, (b, _, rest)) = r.linked in
    let value = is_empty-value h head x y (h.next y) a b refl in
    let apart : (y == h.next y) ≡ false =
      mem-stranger y (h.next y) (xs ++ (head ∷ [])) (ground (arith, mem-append y xs (head ∷ [])))
        (next_mem h y xs head rest) in
    (λ e. absurd (ground (arith, sym value ∙ e)), λ e. absurd (ground arith))

each-Links :
    (h : Heap) (a : ℕ) (xs : List ℕ) (head fuel : ℕ)
    → Links h a (xs ++ (head ∷ []))
    → mem head xs ≡ false
    → length xs ≤ fuel
    → each fuel h (h.next a) head ≡ some xs
unfolding each
each-Links h a [] head zero l m f = rw (l.0) (ground arith)
each-Links h a [] head (suc fuel) l m f = rw (l.0) (ground arith)
each-Links h a (x ∷ xs) head zero l m f = absurd (omega arith)
each-Links h a (x ∷ xs) head (suc fuel) l m f =
    let other : (x == head) ≡ false = ground arith in
    rw (l.0, other, each-Links h x xs head fuel (l.2) (ground arith) (omega arith))
      (ap (λ n. some (n ∷ xs)) (l.0))

-- A node outside a ring may be made a ring of its own.
pub init_list_head-other :
    (h : Heap) (head : ℕ) (xs : List ℕ) (n : ℕ)
    → IsRing h head xs
    → mem n (head ∷ xs) ≡ false
    → IsRing (init_list_head h n) head xs
unfolding init_list_head
init_list_head-other h head xs n r m = record {
  linked =
      Links-agree h (init_list_head h n) head xs head
        (λ k a. rw (mem-apart k n (head ∷ xs) a m) refl)
        (λ k a.
          rw (mem-apart k n (xs ++ (head ∷ [])) a (ground (arith, mem-append n xs (head ∷ []))))
            refl)
        (r.linked);
  different = r.different;
}

-- Going through a ring visits its nodes in their order, in as many rounds as it has nodes.
pub each-IsRing :
    (h : Heap) (head : ℕ) (xs : List ℕ) (fuel : ℕ)
    → IsRing h head xs
    → length xs ≤ fuel
    → each fuel h (h.next head) head ≡ some xs
each-IsRing h head xs fuel r f =
    let d = r.different in each-Links h head xs head fuel (r.linked) (ground arith) f
