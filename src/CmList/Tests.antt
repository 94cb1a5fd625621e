-- ===== src/CmList/Tests.antt =====
-- Runs on a ring of three nodes.
use jklibs.Common.{ℕ, ◌≡◌, refl, List, [], ◌∷◌, some, arith}
use jklibs.CmList.{Heap, init_list_head, add_tail, add_front, del_item, each, add}
use jklibs.CmList.Ring.{
  IsRing, init_list_head-IsRing, add_tail-IsRing, add_front-IsRing, del_item-IsRing, each-IsRing,
}

abbrev start : Heap
start = init_list_head (record { next = λ n. 0; prev = λ n. 0 }) 10

start-IsRing : IsRing start 10 []
start-IsRing = init_list_head-IsRing (record { next = λ n. 0; prev = λ n. 0 }) 10

two-IsRing : IsRing (add_front (add_tail start 20 10) 30 10) 10 (30 ∷ (20 ∷ []))
two-IsRing =
    add_front-IsRing _ 10 (20 ∷ []) 30 (add_tail-IsRing start 10 [] 20 start-IsRing refl) refl

visits : each 3 (add_front (add_tail start 20 10) 30 10) 30 10 ≡ some (30 ∷ (20 ∷ []))
unfolding each add_front add_tail init_list_head add
visits = refl

add_tail-IsRing_example :
    IsRing (add_tail (add_front (add_tail start 20 10) 30 10) 40 10) 10 (30 ∷ (20 ∷ (40 ∷ [])))
add_tail-IsRing_example =
    add_tail-IsRing (add_front (add_tail start 20 10) 30 10) 10 (30 ∷ (20 ∷ [])) 40 two-IsRing refl

del_item-IsRing_example : IsRing (del_item (add_front (add_tail start 20 10) 30 10) 20) 10 (30 ∷ [])
del_item-IsRing_example =
    del_item-IsRing (add_front (add_tail start 20 10) 30 10) 10 (30 ∷ []) 20 [] two-IsRing

abbrev no_nodes : List ℕ
no_nodes = []

each-IsRing_example :
    each 2
      (add_front (add_tail start 20 10) 30 10)
      ((add_front (add_tail start 20 10) 30 10).next 10)
      10
    ≡ some (30 ∷ (20 ∷ []))
each-IsRing_example =
    each-IsRing (add_front (add_tail start 20 10) 30 10) 10 (30 ∷ (20 ∷ [])) 2 two-IsRing
      (omega arith)
