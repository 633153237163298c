-- ===== src/DoublyLinkedList/Segments.antt =====
-- DoublyLinkedList.h: a run of linked nodes in memory, and what a write leaves of it.
use apgitproj.Base.{
  ℕ, ◌+◌, ◌≤◌, ◌≡◌, refl, ◌∙◌, none, some, List, [], ◌∷◌, ◌++◌, arith, ◌==◌, if◌then◌else◌,
}
use apgitproj.DoublyLinkedList.{
  Pointer, Node, Memory, assign, assign_to, allocate, free, with_prev, with_next,
}

-- The address and the value of each node, from the head.
abbrev pub Cells : Type 0 → Type 0
Cells T = List (ℕ × T)

module _ {T : Type 0} where
  -- How often an address occurs.
  unfoldable pub uses : ℕ → Cells T → ℕ
  uses p [] = 0
  uses p (c ∷ cs) = (if c.0 == p then 1 else 0) + uses p cs

  -- The pointer to the first node, and to the last; a given one if there is none.
  abbrev pub first : Cells T → Pointer → Pointer
  first [] after = after
  first (c ∷ cs) after = some c.0

  abbrev pub last : Pointer → Cells T → Pointer
  last before [] = before
  last before (c ∷ cs) = last (some c.0) cs

  -- In `m` the nodes of the cells are linked, between `before` and `after`.
  pub data Seg (m : Memory T) : Pointer → Cells T → Pointer → Type 0 where
    nil : {before after : Pointer} → Seg m before [] after
    cons :
        {before after : Pointer} {p : ℕ} {v : T} {cs : Cells T}
        → m p ≡ some (record { data_of = v; prev = before; next = first cs after })
        → Seg m (some p) cs after
        → Seg m before ((p, v) ∷ cs) after

  pub uses-append : (p : ℕ) (xs ys : Cells T) → uses p (xs ++ ys) ≡ uses p xs + uses p ys
  unfolding uses
  uses-append p [] ys = omega arith
  uses-append p (c ∷ xs) ys = omega (arith, uses-append p xs ys)

  pub first-append :
      (xs ys : Cells T) (after : Pointer) → first (xs ++ ys) after ≡ first xs (first ys after)
  first-append [] ys after = refl
  first-append (c ∷ xs) ys after = refl

  pub last-append :
      (before : Pointer) (xs ys : Cells T) → last before (xs ++ ys) ≡ last (last before xs) ys
  last-append before [] ys = refl
  last-append before (c ∷ xs) ys = last-append (some c.0) xs ys

  -- Two memories agree on the cells.
  pub frame :
      {m w : Memory T} {before after : Pointer} {cs : Cells T}
      → Seg m before cs after
      → ((p : ℕ) → 1 ≤ uses p cs → w p ≡ m p)
      → Seg w before cs after
  unfolding uses
  frame nil same = nil
  frame (cons {p = p} e s) same =
      cons (ground (arith, same p)) (frame s λ q h. same q (ground arith))

  pub assign-Seg :
      {m : Memory T} {before after : Pointer} {cs : Cells T} (p : ℕ) (f : Node T → Node T)
      → Seg m before cs after
      → uses p cs ≡ 0
      → Seg (assign m p f) before cs after
  unfolding assign
  assign-Seg p f s out = frame s λ q h. ground arith

  pub allocate-Seg :
      {m : Memory T} {before after : Pointer} {cs : Cells T} (p : ℕ) (node : Node T)
      → Seg m before cs after
      → uses p cs ≡ 0
      → Seg (allocate m p node) before cs after
  unfolding allocate
  allocate-Seg p node s out = frame s λ q h. ground arith

  pub free-Seg :
      {m : Memory T} {before after : Pointer} {cs : Cells T} (p : ℕ)
      → Seg m before cs after
      → uses p cs ≡ 0
      → Seg (free m p) before cs after
  unfolding free
  free-Seg p s out = frame s λ q h. ground arith

  -- A write through the pointer to the first or to the last node spares every other address.
  pub assign_to-first :
      (m : Memory T) (cs : Cells T) (f : Node T → Node T) (q : ℕ)
      → uses q cs ≡ 0
      → assign_to m (first cs none) f q ≡ m q
  unfolding uses assign
  assign_to-first m [] f q out = refl
  assign_to-first m (c ∷ cs) f q out = ground arith

  assign_to-last-some :
      (m : Memory T) (p : ℕ) (cs : Cells T) (f : Node T → Node T) (q : ℕ)
      → (if p == q then 1 else 0) + uses q cs ≡ 0
      → assign_to m (last (some p) cs) f q ≡ m q
  unfolding uses assign
  assign_to-last-some m p [] f q out = ground arith
  assign_to-last-some m p (c ∷ cs) f q out = assign_to-last-some m c.0 cs f q (ground arith)

  pub assign_to-last :
      (m : Memory T) (cs : Cells T) (f : Node T → Node T) (q : ℕ)
      → uses q cs ≡ 0
      → assign_to m (last none cs) f q ≡ m q
  unfolding uses
  assign_to-last m [] f q out = refl
  assign_to-last m (c ∷ cs) f q out = assign_to-last-some m c.0 cs f q out

  pub assign-at :
      (m : Memory T) (p : ℕ) (f : Node T → Node T) (node : Node T)
      → m p ≡ some node
      → assign m p f p ≡ some (f node)
  unfolding assign
  assign-at m p f node e = ground arith

  pub allocate-at : (m : Memory T) (p : ℕ) (node : Node T) → allocate m p node p ≡ some node
  unfolding allocate
  allocate-at m p node = ground arith

  -- The first node is given another predecessor.
  pub relink_first :
      {m : Memory T} {before after : Pointer} {cs : Cells T} (other : Pointer)
      → Seg m before cs after
      → ((q : ℕ) → uses q cs ≤ 1)
      → Seg (assign_to m (first cs after) (with_prev other)) other cs after
  unfolding uses
  relink_first other nil once = nil
  relink_first {m = m} other (cons {p = p} e s) once =
      cons (assign-at m p _ _ e) (assign-Seg p (with_prev other) s (ground (arith, once p)))

  -- The last node is given another successor.
  pub relink_last :
      {m : Memory T} {before after : Pointer} {cs : Cells T} (other : Pointer)
      → Seg m before cs after
      → ((q : ℕ) → uses q cs ≤ 1)
      → Seg (assign_to m (last before cs) (with_next other)) before cs other
  unfolding uses
  relink_last other nil once = nil
  relink_last {m = m} other (cons {p = p} {cs = []} e s) once = cons (assign-at m p _ _ e) nil
  relink_last {m = m} other (cons {p = p} {cs = c ∷ cs} e s) once =
      cons (assign_to-last-some m c.0 cs (with_next other) p (ground (arith, once p)) ∙ e)
        (relink_last other s λ q. ground (arith, once q))

  pub append-Seg :
      {m : Memory T} {before after : Pointer} (xs ys : Cells T)
      → Seg m before xs (first ys after)
      → Seg m (last before xs) ys after
      → Seg m before (xs ++ ys) after
  append-Seg [] ys s t = t
  append-Seg ((p, v) ∷ xs) ys (cons e s) t =
      cons (rw (first-append xs ys _) e) (append-Seg xs ys s t)

  pub split-Seg :
      {m : Memory T} {before after : Pointer} (xs ys : Cells T)
      → Seg m before (xs ++ ys) after
      → Seg m before xs (first ys after) × Seg m (last before xs) ys after
  split-Seg [] ys s = (nil, s)
  split-Seg ((p, v) ∷ xs) ys (cons e s) =
      let parts = split-Seg xs ys s in (cons (rw (← first-append xs ys _) e) parts.0, parts.1)
