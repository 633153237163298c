-- ===== src/Tests/Lists.antt =====
-- The linked list with two nodes.
use apgitproj.Base.{ℕ, ◌≡◌, [], ◌∷◌}
use apgitproj.DoublyLinkedList.{DoublyLinkedList, new_list, push_front, move_to_front, pop_tail}
use apgitproj.DoublyLinkedList.Front.{Represents, push_front-Represents}
use apgitproj.DoublyLinkedList.Methods.{move_to_front-Represents, pop_tail-Represents}
use apgitproj.BufferPool.Invariant.{new_list-Represents}

abbrev one : DoublyLinkedList ℕ
one = (push_front 7 new_list).0

abbrev two : DoublyLinkedList ℕ
two = (push_front 8 one).0

two-Represents : Represents two ((1, 8) ∷ (0, 7) ∷ [])
unfolding push_front
two-Represents =
    push_front-Represents 8 one ((0, 7) ∷ [])
      (push_front-Represents 7 new_list [] new_list-Represents)

move_to_front-Represents_example : Represents (move_to_front 0 two) ((0, 7) ∷ (1, 8) ∷ [])
move_to_front-Represents_example = move_to_front-Represents ((1, 8) ∷ []) [] 0 7 two two-Represents

pop_tail-Represents_example : ((pop_tail 0 two).0 ≡ 7) × Represents (pop_tail 0 two).1 ((1, 8) ∷ [])
pop_tail-Represents_example = pop_tail-Represents 0 two ((1, 8) ∷ []) 0 7 two-Represents
