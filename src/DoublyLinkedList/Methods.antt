-- ===== src/DoublyLinkedList/Methods.antt =====
-- DoublyLinkedList.h: the methods on the sequence of nodes that the links stand for.
use apgitproj.Base.{
  ℕ, ◌+◌, ◌≤◌, ◌≡◌, refl, ap, ◌∙◌, sym, subst, true, false, none, some, [], ◌∷◌, ◌++◌, append-nil,
  inl, inr, ◌⊎◌, arith, ◌==◌, if◌then◌else◌,
}
use apgitproj.DoublyLinkedList.{
  Pointer, Node, DoublyLinkedList, is_pointer, assign, assign_to, with_prev, with_next, or_else,
  unlink_node, unlink, move_to_front, remove, pop_tail,
}
use apgitproj.DoublyLinkedList.Front.{Represents, or_else-last, link_front}
use apgitproj.DoublyLinkedList.Segments.{
  Cells, uses, first, last, Seg, cons, frame, uses-append, last-append, assign-at, assign-Seg,
  free-Seg, assign_to-first, assign_to-last, relink_first, relink_last, append-Seg, split-Seg,
}

module _ {T : Type 0} where
  -- `moveToFront` after the call of `unlink`.
  abbrev moved : ℕ → DoublyLinkedList T → DoublyLinkedList T
  moved p rest = record rest {
    memory =
        assign_to (assign rest.memory p (λ n. with_next rest.head (with_prev none n))) rest.head
          (with_prev (some p));
    head = some p;
    tail = or_else rest.tail (some p);
  }

  list_cases : (xs : Cells T) → (xs ≡ []) ⊎ ((c : ℕ × T) × (cs : Cells T) × (xs ≡ c ∷ cs))
  list_cases [] = inl refl
  list_cases (c ∷ cs) = inr (c, cs, refl)

  -- The last of a run that is not empty is a node.
  last-node :
      (q : ℕ) (cs : Cells T) (a b : Pointer)
      → (elim (last (some q) cs) [ none ↦ a | some _ ↦ b ]) ≡ b
  last-node q [] a b = refl
  last-node q (c ∷ cs) a b = last-node c.0 cs a b

  -- `head_` and `tail_` after a node between `xs` and `ys` was taken out.
  head-unlinked :
      (xs ys : Cells T) (c : ℕ × T)
      → (elim (last none xs) [ none ↦ first ys none | some _ ↦ first (xs ++ c ∷ ys) none ])
        ≡ first (xs ++ ys) none
  head-unlinked [] ys c = refl
  head-unlinked (d ∷ xs) ys c = last-node d.0 xs (first ys none) (some d.0)

  tail-unlinked :
      (xs ys : Cells T) (c : ℕ × T)
      → (elim (first ys none) [ none ↦ last none xs | some _ ↦ last none (xs ++ c ∷ ys) ])
        ≡ last none (xs ++ ys)
  tail-unlinked xs [] c = ap (last none) (sym (append-nil xs))
  tail-unlinked xs (d ∷ ys) c =
      last-append none xs (c ∷ d ∷ ys) ∙ sym (last-append none xs (d ∷ ys))

  -- One node of the list, with those before and after it.
  module _ (xs ys : Cells T) (p : ℕ) (v : T) where
    abbrev whole : Cells T
    whole = xs ++ (p, v) ∷ ys

    abbrev rest : Cells T
    rest = xs ++ ys

    -- The node in the middle.
    abbrev middle : Node T
    middle = record { data_of = v; prev = last none xs; next = first ys none }

    uses-whole : (q : ℕ) → uses q whole ≡ uses q xs + (if p == q then 1 else 0) + uses q ys
    unfolding uses
    uses-whole q = omega (arith, uses-append q xs ((p, v) ∷ ys))

    -- What `unlink` leaves: the other nodes are linked, and the node stands alone.
    record Unlinked (old l : DoublyLinkedList T) : Type 0 where
      represents : Represents l rest
      kept : l.fresh ≡ old.fresh
      alone : l.memory p ≡ some (record { data_of = v; prev = none; next = none })

    module _ (l : DoublyLinkedList T) (r : Represents l whole) where
      uses-xs : (q : ℕ) → uses q xs ≤ 1
      uses-xs q = omega (arith, uses-whole q, r.once q)

      uses-ys : (q : ℕ) → uses q ys ≤ 1
      uses-ys q = omega (arith, uses-whole q, r.once q)

      out_xs : uses p xs ≡ 0
      out_xs = ground (arith, uses-whole p, r.once p)

      out_ys : uses p ys ≡ 0
      out_ys = ground (arith, uses-whole p, r.once p)

      uses-rest : (q : ℕ) → uses q rest ≤ uses q whole
      uses-rest q = ground (arith, uses-append q xs ys, uses-whole q)

      out_rest : uses p rest ≡ 0
      out_rest = omega (arith, uses-append p xs ys, out_xs, out_ys)

      at-middle : l.memory p ≡ some middle
      at-middle = elim (split-Seg xs ((p, v) ∷ ys) r.seg).1 [ cons e s ↦ e ]

      tail_seg : Seg l.memory (some p) ys none
      tail_seg = elim (split-Seg xs ((p, v) ∷ ys) r.seg).1 [ cons e s ↦ s ]

      head_seg : Seg l.memory none xs (some p)
      head_seg = (split-Seg xs ((p, v) ∷ ys) r.seg).0

      unlink_node-Unlinked : Unlinked l (unlink_node p middle l)
      unfolding unlink_node
      unlink_node-Unlinked =
          let f = with_next (first ys none) in
          let g = with_prev (last none xs) in
          let forward = assign_to l.memory (last none xs) f in
          let backward = assign_to forward (first ys none) g in
          let front : Seg forward none xs (first ys none) =
            relink_last (first ys none) head_seg uses-xs in
          let back : Seg forward (some p) ys none =
            frame tail_seg
              λ q h. assign_to-last l.memory xs f q (omega (arith, uses-whole q, r.once q)) in
          let linked : Seg backward none rest none =
            append-Seg xs ys
              (frame front
                λ q h. assign_to-first forward ys g q (omega (arith, uses-whole q, r.once q)))
              (relink_first (last none xs) back uses-ys) in
          record {
            represents = record {
              seg = assign-Seg p _ linked out_rest;
              at_head =
                  ap (λ h. elim (last none xs) [ none ↦ first ys none | some _ ↦ h ]) r.at_head
                  ∙ head-unlinked xs ys (p, v);
              at_tail =
                  ap (λ h. elim (first ys none) [ none ↦ last none xs | some _ ↦ h ]) r.at_tail
                  ∙ tail-unlinked xs ys (p, v);
              once = λ q. omega (arith, uses-rest q, r.once q);
              stale = λ q h. omega (arith, uses-rest q, r.stale q h);
            };
            kept = refl;
            alone = assign-at backward p _ middle (
                assign_to-first forward ys g p out_ys
                ∙ assign_to-last l.memory xs f p out_xs
                ∙ at-middle);
          }

      unlink-Unlinked : Unlinked l (unlink p l)
      unfolding unlink
      unlink-Unlinked = rw (at-middle, unlink) unlink_node-Unlinked

      -- At the head `moveToFront` does nothing.
      move_to_front-head : xs ≡ [] → move_to_front p l ≡ l
      unfolding move_to_front
      move_to_front-head e =
          let at_front : is_pointer (some p) l.head ≡ true =
            ap (is_pointer (some p)) (r.at_head ∙ ap (λ zs. first (zs ++ (p, v) ∷ ys) none) e)
            ∙ ground arith in
          rw at_front

      move_to_front-inner :
          (c : ℕ × T) (cs : Cells T) → xs ≡ c ∷ cs → move_to_front p l ≡ moved p (unlink p l)
      unfolding move_to_front uses
      move_to_front-inner c cs e =
          let unused : uses p (c ∷ cs) ≡ 0 = ap (uses p) (sym e) ∙ out_xs in
          let behind : is_pointer (some p) l.head ≡ false =
            ap (is_pointer (some p)) (r.at_head ∙ ap (λ zs. first (zs ++ (p, v) ∷ ys) none) e)
            ∙ ground arith in
          rw behind

      moved-Represents :
          (m : DoublyLinkedList T) → Unlinked l m → Represents (moved p m) ((p, v) ∷ rest)
      unfolding uses
      moved-Represents m u =
          let f = λ (n : Node T). with_next (first rest none) (with_prev none n) in
          record {
            seg = rw (u.represents.at_head) (
                link_front p v (assign-Seg p f u.represents.seg out_rest) u.represents.once out_rest
                  (assign-at m.memory p f _ u.alone));
            at_head = refl;
            at_tail = rw (u.represents.at_tail) (or_else-last p rest);
            once = λ q. ground (arith, u.represents.once q, out_rest);
            stale = λ q h. ground (arith, r.stale q, uses-whole q, u.kept, u.represents.stale q h);
          }

      -- `moveToFront` puts the node before all others, which keep their order.
      pub move_to_front-Represents : Represents (move_to_front p l) ((p, v) ∷ xs ++ ys)
      move_to_front-Represents = elim (list_cases xs) [
        | inl e ↦ rw (move_to_front-head e) (
            subst (Represents l)
              (ap (λ zs. zs ++ (p, v) ∷ ys) e ∙ sym (ap (λ zs. (p, v) ∷ zs ++ ys) e)) r)
        | inr (c, cs, e) ↦
            rw (move_to_front-inner c cs e) (moved-Represents (unlink p l) unlink-Unlinked)
      ]

      -- `remove` takes the node out.
      pub remove-Represents : Represents (remove p l) (xs ++ ys)
      unfolding remove
      remove-Represents =
          let u = unlink-Unlinked in
          let old = u.represents in
          record {
            seg = free-Seg p old.seg out_rest;
            at_head = old.at_head;
            at_tail = old.at_tail;
            once = old.once;
            stale = old.stale;
          }

  -- `popTail` of a list that is not empty gives the value of the last node, which is taken out.
  pub pop_tail-Represents :
      (default : T) (l : DoublyLinkedList T) (xs : Cells T) (p : ℕ) (v : T)
      → Represents l (xs ++ (p, v) ∷ [])
      → ((pop_tail default l).0 ≡ v) × Represents (pop_tail default l).1 xs
  unfolding pop_tail
  pop_tail-Represents default l xs p v r =
      let at : l.tail ≡ some p = r.at_tail ∙ last-append none xs ((p, v) ∷ []) in
      let e : pop_tail default l ≡ (v, remove p l) = rw (at, at-middle xs [] p v l r) refl in
      rw e (refl, subst (Represents (remove p l)) (append-nil xs) (remove-Represents xs [] p v l r))
