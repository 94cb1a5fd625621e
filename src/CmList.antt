-- ===== src/CmList.antt =====
-- common/cm_list.c: doubly linked rings. A node is its address; the memory gives each node's two
-- pointers, and an assignment through a pointer is seen through every other pointer to the node.
pub mod Links
pub mod Ring
mod Tests
use jklibs.Common.{
  ℕ, zero, suc, ◌==◌, if◌then◌else◌, Bool, true, false, List, [], ◌∷◌, Option, none, some,
}

-- struct list_head, of every node.
pub record Heap : Type 0 where
  pub next : ℕ → ℕ
  pub prev : ℕ → ℕ

-- node->next = to
abbrev pub set_next : Heap → ℕ → ℕ → Heap
set_next h node to = record h { next = λ n. if n == node then to else h.next n }

-- node->prev = to
abbrev pub set_prev : Heap → ℕ → ℕ → Heap
set_prev h node to = record h { prev = λ n. if n == node then to else h.prev n }

unfoldable pub init_list_head : Heap → ℕ → Heap
init_list_head h head = set_next (set_prev h head head) head head

-- cm_list_add
unfoldable pub add : Heap → ℕ → ℕ → ℕ → Heap
add h item prev next =
    let h = set_prev h next item in
    let h = set_next h item next in let h = set_prev h item prev in set_next h prev item

unfoldable pub add_tail : Heap → ℕ → ℕ → Heap
add_tail h item head = add h item (h.prev head) head

unfoldable pub add_front : Heap → ℕ → ℕ → Heap
add_front h item head = add h item head (h.next head)

-- cm_list_del
unfoldable pub del : Heap → ℕ → ℕ → Heap
del h prev next = set_next (set_prev h next prev) prev next

unfoldable pub del_item : Heap → ℕ → Heap
del_item h item = del h (h.prev item) (h.next item)

-- cm_list_empty
unfoldable pub is_empty : Heap → ℕ → Bool
is_empty h head = let last = h.next head in h.next last == h.next (h.next last)

-- cm_list_each from the node `pos`: the nodes that it visits, in at most `fuel` rounds.
unfoldable pub each : ℕ → Heap → ℕ → ℕ → Option (List ℕ)
each zero h pos head = if pos == head then some [] else none
each (suc fuel) h pos head =
    let rest = each fuel h (h.next pos) head in
    if pos == head then some [] else elim rest [ none ↦ none | some xs ↦ some (pos ∷ xs) ]
