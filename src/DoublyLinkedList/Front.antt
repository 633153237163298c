-- ===== src/DoublyLinkedList/Front.antt =====
-- DoublyLinkedList.h: the sequence of nodes that the links stand for, and a new first node.
use apgitproj.Base.{ℕ, ◌≤◌, ◌≡◌, refl, ◌∙◌, none, some, [], ◌∷◌, arith}
use apgitproj.DoublyLinkedList.{
  Node, Memory, DoublyLinkedList, assign_to, with_prev, or_else, push_front,
}
use apgitproj.DoublyLinkedList.Segments.{
  Cells, uses, first, last, Seg, cons, allocate-at, allocate-Seg, assign_to-first, relink_first,
}

module _ {T : Type 0} where
  -- The list's nodes are linked in the order of the cells, no node is there twice, and no address
  -- from `fresh` on is in use.
  pub record Represents (l : DoublyLinkedList T) (cells : Cells T) : Type 0 where
    pub seg : Seg l.memory none cells none
    pub at_head : l.head ≡ first cells none
    pub at_tail : l.tail ≡ last none cells
    pub once : (p : ℕ) → uses p cells ≤ 1
    pub stale : (p : ℕ) → l.fresh ≤ p → uses p cells ≡ 0

  pub or_else-last :
      (p : ℕ) (cells : Cells T) → or_else (last none cells) (some p) ≡ last (some p) cells
  or_else-last p [] = refl
  or_else-last p (c ∷ cells) = last_some c.0 cells
    where
      last_some : (q : ℕ) (cs : Cells T) → or_else (last (some q) cs) (some p) ≡ last (some q) cs
      last_some q [] = refl
      last_some q (d ∷ cs) = last_some d.0 cs

  -- A node that points to the first one of a list, which is then pointed back.
  pub link_front :
      {m : Memory T} {cells : Cells T} (p : ℕ) (v : T)
      → Seg m none cells none
      → ((q : ℕ) → uses q cells ≤ 1)
      → uses p cells ≡ 0
      → m p ≡ some (record { data_of = v; prev = none; next = first cells none })
      → Seg (assign_to m (first cells none) (with_prev (some p))) none ((p, v) ∷ cells) none
  link_front {m = m} {cells = cells} p v s once out e =
      cons (assign_to-first m cells (with_prev (some p)) p out ∙ e) (relink_first (some p) s once)

  -- `pushFront` puts a new node before all others.
  pub push_front-Represents :
      (val : T) (l : DoublyLinkedList T) (cells : Cells T)
      → Represents l cells
      → Represents (push_front val l).0 (((push_front val l).1, val) ∷ cells)
  unfolding push_front uses
  push_front-Represents val l cells r =
      let node : Node T = record { data_of = val; prev = none; next = first cells none } in
      let out : uses l.fresh cells ≡ 0 = r.stale l.fresh (omega arith) in
      record {
        seg = rw (r.at_head) (
            link_front l.fresh val (allocate-Seg l.fresh node r.seg out) r.once out
              (allocate-at l.memory l.fresh node));
        at_head = refl;
        at_tail = rw (r.at_tail) (or_else-last l.fresh cells);
        once = λ p. ground (arith, r.once p, out);
        stale = λ p h. ground (arith, r.stale p);
      }
