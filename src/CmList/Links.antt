-- ===== src/CmList/Links.antt =====
-- Runs of linked nodes in memory, and what assignments to pointers do to them.
use jklibs.Common.{
  ℕ, ◌≡◌, ◌≢◌, refl, Bool, true, false, List, [], ◌∷◌, ◌++◌, arith, ◌==◌, ◌||◌, ◌&&◌, not,
}
use jklibs.CmList.{Heap, add, del, del_item}

abbrev pub mem : ℕ → List ℕ → Bool
mem x [] = false
mem x (y ∷ ys) = (x == y) || mem x ys

abbrev pub distinct : List ℕ → Bool
distinct [] = true
distinct (x ∷ xs) = not (mem x xs) && distinct xs

-- Each node is linked to the following one in both directions, from `a` through the list.
abbrev pub Links : Heap → ℕ → List ℕ → Type 0
Links h a [] = Unit
Links h a (x ∷ xs) = (h.next a ≡ x) × (h.prev x ≡ a) × Links h x xs

pub Links-split :
    (h : Heap) (a : ℕ) (xs : List ℕ) (b : ℕ) (ys : List ℕ)
    → Links h a (xs ++ (b ∷ ys))
    → Links h a (xs ++ (b ∷ [])) × Links h b ys
Links-split h a [] b ys l = ((l.0, l.1, tt), l.2)
Links-split h a (x ∷ xs) b ys l = let (u, v) = Links-split h x xs b ys (l.2) in ((l.0, l.1, u), v)

pub Links-join :
    (h : Heap) (a : ℕ) (xs : List ℕ) (b : ℕ) (ys : List ℕ)
    → Links h a (xs ++ (b ∷ []))
    → Links h b ys
    → Links h a (xs ++ (b ∷ ys))
Links-join h a [] b ys l r = (l.0, l.1, r)
Links-join h a (x ∷ xs) b ys l r = (l.0, l.1, Links-join h x xs b ys (l.2) r)

-- Two memories that agree on the pointers of a run.
pub Links-agree :
    (h k : Heap) (a : ℕ) (xs : List ℕ) (b : ℕ)
    → ((n : ℕ) → mem n (a ∷ xs) ≡ true → k.next n ≡ h.next n)
    → ((n : ℕ) → mem n (xs ++ (b ∷ [])) ≡ true → k.prev n ≡ h.prev n)
    → Links h a (xs ++ (b ∷ []))
    → Links k a (xs ++ (b ∷ []))
Links-agree h k a [] b nexts prevs l =
    (rw (nexts a (ground arith)) (l.0), rw (prevs b (ground arith)) (l.1), tt)
Links-agree h k a (x ∷ xs) b nexts prevs l = (
  rw (nexts a (ground arith)) (l.0),
  rw (prevs x (ground arith)) (l.1),
  Links-agree h k x xs b (λ n m. nexts n (ground (arith, m))) (λ n m. prevs n (ground (arith, m)))
      (l.2),
)

-- A member is no stranger.
pub mem-apart : (m p : ℕ) (xs : List ℕ) → mem m xs ≡ true → mem p xs ≡ false → (m == p) ≡ false
mem-apart m p [] a b = absurd (ground arith)
mem-apart m p (x ∷ xs) a b = ground (arith, mem-apart m p xs)

pub mem-stranger : (m p : ℕ) (xs : List ℕ) → mem m xs ≡ false → mem p xs ≡ true → (m == p) ≡ false
mem-stranger m p xs a b = ground (arith, mem-apart p m xs b a)

pub mem-append : (m : ℕ) (xs ys : List ℕ) → mem m (xs ++ ys) ≡ (mem m xs || mem m ys)
mem-append m [] ys = refl
mem-append m (x ∷ xs) ys = ground (arith, mem-append m xs ys)

pub distinct-last : (p : ℕ) (xs : List ℕ) → distinct (xs ++ (p ∷ [])) ≡ true → mem p xs ≡ false
distinct-last p [] d = refl
distinct-last p (x ∷ xs) d = ground (arith, distinct-last p xs, mem-append x xs (p ∷ []))

-- `add` links the new node between the two given.
pub add-Links :
    (h : Heap) (item p n : ℕ) → item ≢ p → item ≢ n → Links (add h item p n) p (item ∷ (n ∷ []))
unfolding add
add-Links h item p n ip inn = ground arith

-- The rest of the ring, from the node behind the new one to the node before it, stays linked.
pub add-rest :
    (h : Heap) (item n : ℕ) (ys : List ℕ) (p : ℕ)
    → mem item (n ∷ (ys ++ (p ∷ []))) ≡ false
    → mem p (n ∷ ys) ≡ false
    → mem n (ys ++ (p ∷ [])) ≡ false
    → Links h n (ys ++ (p ∷ []))
    → Links (add h item p n) n (ys ++ (p ∷ []))
unfolding add
add-rest h item n ys p away last first l =
    let item_away : mem item (n ∷ ys) ≡ false = ground (arith, mem-append item ys (p ∷ [])) in
    let item_away2 : mem item (ys ++ (p ∷ [])) ≡ false = ground arith in
    Links-agree h (add h item p n) n ys p
      (λ m k. rw (mem-apart m p (n ∷ ys) k last, mem-apart m item (n ∷ ys) k item_away) refl)
      (λ m k.
        rw (mem-apart m item (ys ++ (p ∷ [])) k item_away2, mem-apart m n (ys ++ (p ∷ [])) k first)
          refl)
      l

pub prev_mem :
    (h : Heap) (a : ℕ) (ys : List ℕ) (item : ℕ) (ws : List ℕ)
    → Links h a (ys ++ (item ∷ ws))
    → mem (h.prev item) (a ∷ ys) ≡ true
prev_mem h a [] item ws l = ground (arith, l.1)
prev_mem h a (y ∷ ys) item ws l = ground (arith, prev_mem h y ys item ws (l.2))

pub next_mem :
    (h : Heap) (item : ℕ) (zs : List ℕ) (e : ℕ)
    → Links h item (zs ++ (e ∷ []))
    → mem (h.next item) (zs ++ (e ∷ [])) ≡ true
next_mem h item [] e l = ground (arith, l.0)
next_mem h item (z ∷ zs) e l = ground (arith, l.0)

-- Taking the node `item` out of a run links its neighbours. Nodes that are left are all different,
-- and so are those that are reached; the first and the last node of the run may be the same.
pub del_item-Links :
    (h : Heap) (a : ℕ) (ys : List ℕ) (item : ℕ) (zs : List ℕ) (e : ℕ)
    → Links h a (ys ++ (item ∷ (zs ++ (e ∷ []))))
    → distinct (a ∷ (ys ++ (item ∷ zs))) ≡ true
    → distinct (ys ++ (item ∷ (zs ++ (e ∷ [])))) ≡ true
    → Links (del_item h item) a (ys ++ (zs ++ (e ∷ [])))
unfolding del_item del
del_item-Links h a [] item [] e l d t = let (n0, p0, (n1, p1, u)) = l in rw (p0, n1) (ground arith)
del_item-Links h a [] item (n ∷ zs) e l d t =
    let (n0, p0, (n1, p1, rest)) = l in
    (
      rw (p0, n1) (ground arith),
      rw (p0, n1) (ground arith),
      Links-agree h (del_item h item) n zs e
          (λ m k. rw (p0, mem-apart m a (n ∷ zs) k (ground arith)) refl)
          (λ m k. rw (n1, mem-apart m n (zs ++ (e ∷ [])) k (ground arith)) refl) rest,
    )
del_item-Links h a (y ∷ ys) item zs e l d t =
    let split = Links-split h y ys item (zs ++ (e ∷ [])) (l.2) in
    let before : (a == h.prev item) ≡ false =
      mem-stranger a (h.prev item) (y ∷ ys) (ground (arith, mem-append a ys (item ∷ zs)))
        (prev_mem h y ys item (zs ++ (e ∷ [])) (l.2)) in
    let behind : (y == h.next item) ≡ false =
      mem-stranger y (h.next item) (zs ++ (e ∷ []))
        (ground (arith, mem-append y ys (item ∷ (zs ++ (e ∷ [])))))
        (next_mem h item zs e (split.1)) in
    (
      rw before (l.0),
      rw behind (l.1),
      del_item-Links h y ys item zs e (l.2) (ground arith) (ground arith),
    )
