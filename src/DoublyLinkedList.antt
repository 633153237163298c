-- ===== src/DoublyLinkedList.antt =====
-- src/common/DoublyLinkedList.h: the list of nodes that point both ways. Memory maps an address
-- to the node there; `new` takes the address `fresh`, and `delete` empties one. A pointer is an
-- address or null.
pub mod Segments
pub mod Front
pub mod Methods
use apgitproj.Base.{
  ℕ, suc, Bool, true, false, Option, none, some, ℤ, pos, ◌+ℤ◌, ◌-ℤ◌, compare_ℤ, eq, ◌==◌,
  if◌then◌else◌,
}

abbrev pub Pointer : Type 0
Pointer = Option ℕ

pub record Node (T : Type 0) : Type 0 where
  pub data_of : T
  pub prev : Pointer
  pub next : Pointer

abbrev pub Memory : Type 0 → Type 0
Memory T = ℕ → Option (Node T)

pub record DoublyLinkedList (T : Type 0) : Type 0 where
  pub memory : Memory T
  pub fresh : ℕ
  pub head : Pointer
  pub tail : Pointer
  pub size : ℤ

abbrev pub is_pointer : Pointer → Pointer → Bool
is_pointer none none = true
is_pointer (some p) (some q) = p == q
is_pointer _ _ = false

-- A pointer if it is not null, and otherwise another value.
abbrev pub or_else : Pointer → Pointer → Pointer
or_else none p = p
or_else (some q) p = some q

module _ {T : Type 0} where
  -- `node->prev = p` and `node->next = p`.
  abbrev pub with_prev : Pointer → Node T → Node T
  with_prev p node = record node { prev = p }

  abbrev pub with_next : Pointer → Node T → Node T
  with_next p node = record node { next = p }

  abbrev pub change : (Node T → Node T) → Option (Node T) → Option (Node T)
  change f none = none
  change f (some node) = some (f node)

  -- A write at an address, and a write through a pointer that the code has tested.
  unfoldable pub assign : Memory T → ℕ → (Node T → Node T) → Memory T
  assign m p f q = if p == q then change f (m q) else m q

  abbrev pub assign_to : Memory T → Pointer → (Node T → Node T) → Memory T
  assign_to m none f = m
  assign_to m (some p) f = assign m p f

  unfoldable pub allocate : Memory T → ℕ → Node T → Memory T
  allocate m p node q = if p == q then some node else m q

  unfoldable pub free : Memory T → ℕ → Memory T
  free m p q = if p == q then none else m q

  abbrev pub new_list : DoublyLinkedList T
  new_list = record { memory = λ p. none; fresh = 0; head = none; tail = none; size = pos 0 }

  -- The node at an address, with the list afterwards.
  unfoldable pub push_front : T → DoublyLinkedList T → DoublyLinkedList T × ℕ
  push_front val l =
      let node = l.fresh in
      let start : Node T = record { data_of = val; prev = none; next = l.head } in
      (
        record {
          memory = assign_to (allocate l.memory node start) l.head (with_prev (some node));
          fresh = suc node;
          head = some node;
          tail = or_else l.tail (some node);
          size = l.size +ℤ pos 1;
        },
        node,
      )

  -- `unlink` of the node at `p`, whose fields are given.
  unfoldable pub unlink_node : ℕ → Node T → DoublyLinkedList T → DoublyLinkedList T
  unlink_node p node l =
      let forward = assign_to l.memory node.prev (with_next node.next) in
      let backward = assign_to forward node.next (with_prev node.prev) in
      record l {
        memory = assign backward p (λ n. with_next none (with_prev none n));
        head = elim node.prev [ none ↦ node.next | some _ ↦ l.head ];
        tail = elim node.next [ none ↦ node.prev | some _ ↦ l.tail ];
        size = l.size -ℤ pos 1;
      }

  -- An address with no node is not a case of the code: there the list stays.
  unfoldable pub unlink : ℕ → DoublyLinkedList T → DoublyLinkedList T
  unlink p l = elim (l.memory p) [ none ↦ l | some node ↦ unlink_node p node l ]

  unfoldable pub move_to_front : ℕ → DoublyLinkedList T → DoublyLinkedList T
  move_to_front p l =
      if is_pointer (some p) l.head
      then l
      else let rest = unlink p l in
        let front = assign rest.memory p (λ n. with_next rest.head (with_prev none n)) in
        record rest {
          memory = assign_to front rest.head (with_prev (some p));
          head = some p;
          tail = or_else rest.tail (some p);
        }

  unfoldable pub remove : ℕ → DoublyLinkedList T → DoublyLinkedList T
  remove p l = let rest = unlink p l in record rest { memory = free rest.memory p }

  -- The value of the last node, which is deleted; `T def{}` for an empty list.
  unfoldable pub pop_tail : T → DoublyLinkedList T → T × DoublyLinkedList T
  pop_tail default l = elim l.tail [
    | none ↦ (default, l)
    | some p ↦ elim (l.memory p) [ none ↦ (default, l) | some node ↦ (node.data_of, remove p l) ]
  ]

  unfoldable pub is_empty : DoublyLinkedList T → Bool
  is_empty l = elim (compare_ℤ l.size (pos 0)) [ eq ↦ true | _ ↦ false ]
