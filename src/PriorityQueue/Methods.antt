-- ===== src/PriorityQueue/Methods.antt =====
-- PriorityQueue.h: the methods keep the heap, and `dequeue` returns a least entry.
use mathlib.Core.Logic.Or
use native.Mathlib.Bridge.{le_prop}
use mathlib.Core.List.{Perm, Mem, not-mem-nil, mem-cons}
use mathlib.Core.List.Perm
use apgitproj.Base.{
  ℕ, suc, ◌-◌, ◌<◌, ◌≤◌, ◌≡◌, refl, sym, ◌∙◌, ap, false, some, List, [], ◌∷◌, ◌++◌, length,
  length-append, length-set, set, get_or, get_or-set, take, length-take, arith, ltb, leb, ltb→lt,
  ltb→le, ◌==◌, if◌then◌else◌, ℤ, ◌≤ℤ◌, Bool-cases, inl, inr,
}
use apgitproj.PriorityQueue.{Entry, PriorityQueue, parent, key, sift_down, enqueue, dequeue}
use apgitproj.PriorityQueue.Array.{
  Perm-length, set-perm, snoc-perm, get_or-append, get_or-take, take-last,
}
use apgitproj.PriorityQueue.Order.{IsHeap, Sifted, root_least}
use apgitproj.PriorityQueue.Up.{UpInv, sift_up-Sifted}
use apgitproj.PriorityQueue.Down.{DownInv, sift_down-Sifted}

module _ {T : Type 0} (blank : Entry T) where
  -- The heap order, and room for every entry; the capacity can double.
  pub record IsValid (q : PriorityQueue T) : Type 0 where
    pub heap : IsHeap blank q.items
    pub fits : length q.items ≤ q.capacity
    pub grows : 0 < q.capacity

  enqueued :
      (a : List (Entry T)) (e : Entry T) → IsHeap blank a → UpInv blank (a ++ e ∷ []) (length a)
  enqueued a e h =
      let size = length-append a (e ∷ []) in
      record {
        in_array = omega (arith, size);
        settled = λ c p r n. ground (
          arith,
          size,
          h c,
          get_or-append a (e ∷ []) c blank,
          get_or-append a (e ∷ []) (parent c) blank,
        );
        bridged = λ c p r z w. absurd (omega (arith, size));
      }

  -- `enqueue` adds exactly the entry, in a valid queue.
  pub enqueue-IsValid :
      (q : PriorityQueue T) (val : T) (priority : ℤ)
      → IsValid q
      → let q' = enqueue blank q val priority in
        IsValid q' × Perm q'.items (record { priority = priority; value = val } ∷ q.items)
  unfolding enqueue
  enqueue-IsValid q val priority v =
      let e : Entry T = record { priority = priority; value = val } in
      let t =
        sift_up-Sifted blank (length q.items) (q.items ++ e ∷ []) (length q.items) (omega arith)
          (enqueued q.items e v.heap) in
      let perm = Perm.trans t.1 (snoc-perm q.items e) in
      let size = Perm-length perm in
      elim (Bool-cases (leb q.capacity (length q.items))) [
        | inl full ↦ rw full (
          record {
            heap = t.0;
            fits = omega (arith, size, v.fits, v.grows);
            grows = omega (arith, v.grows);
          },
          perm,
        )
        | inr room ↦
            let c : length q.items < q.capacity = ground arith in
            rw room (record { heap = t.0; fits = omega (arith, size); grows = v.grows }, perm)
      ]

  -- What `dequeue` returns: the value of a least entry, and a valid queue of the others.
  pub record Dequeued (q : PriorityQueue T) (r : T × PriorityQueue T) : Type 0 where
    pub entry : Entry T
    pub returned : r.0 ≡ entry.value
    pub same : Perm (entry ∷ r.1.items) q.items
    pub least : (t : Entry T) → Mem t q.items → entry.priority ≤ℤ t.priority
    pub valid : IsValid r.1

  le_of_mem :
      (a : List (Entry T)) (b : ℤ)
      → ((i : ℕ) → i < length a → b ≤ℤ key blank a i)
      → (t : Entry T) → Mem t a
      → b ≤ℤ t.priority
  le_of_mem [] b h t m = absurd (not-mem-nil m)
  le_of_mem (x ∷ a) b h t m =
      Or.elim le_prop (mem-cons.0 m) (λ e. rw e (h 0 (omega arith)))
        (le_of_mem a b (λ i p. h (suc i) (omega arith)) t)

  module _ (a : List (Entry T)) (n : ℕ) (size : length a ≡ suc n) where
    -- The slots that `dequeue` hands to `siftDown`.
    abbrev moved : List (Entry T)
    moved = take n (set a 0 (get_or a n blank))

    length-moved : length moved ≡ n
    length-moved =
        let kept = length-set a 0 (get_or a n blank) in
        length-take n (set a 0 (get_or a n blank)) (omega arith)

    moved-perm : Perm (get_or a 0 blank ∷ moved) a
    moved-perm =
        let last = get_or a n blank in
        let b = set a 0 last in
        let end : get_or b n blank ≡ last =
          get_or-set a 0 n last blank (omega arith) ∙ ground arith in
        let whole : moved ++ last ∷ [] ≡ b =
          ap (λ x. moved ++ x ∷ []) (sym end) ∙ take-last n b blank (length-set a 0 last ∙ size) in
        let back : Perm (last ∷ moved) b =
          Perm.trans (Perm.symm (snoc-perm moved last)) (rw whole (Perm.refl b)) in
        Perm.cons_inv (
          Perm.trans (Perm.swap (get_or a 0 blank) last moved) (
            Perm.trans (Perm.cons (get_or a 0 blank) back) (set-perm a 0 last blank (omega arith))))

    moved-DownInv : IsHeap blank a → DownInv blank moved 0
    moved-DownInv h = record {
      edges = λ c p r z.
          let last = get_or a n blank in
          let inside : 0 < length a = omega arith in
          ground (
            arith,
            length-moved,
            h c,
            get_or-take n (set a 0 last) c blank,
            get_or-take n (set a 0 last) (parent c) blank,
            get_or-set a 0 c last blank inside,
            get_or-set a 0 (parent c) last blank inside,
          );
      bridged = λ c p r z w. absurd (omega arith);
    }

    -- The heap that `dequeue` leaves.
    moved-Sifted :
        IsHeap blank a → Sifted blank moved (if ltb 0 n then sift_down blank n moved 0 else moved)
    moved-Sifted h = elim (Bool-cases (ltb 0 n)) [
      | inl p ↦
          let pos = ltb→lt 0 n p in
          rw p (
            sift_down-Sifted blank n moved 0 (omega (arith, length-moved))
              (omega (arith, length-moved)) (moved-DownInv h))
      | inr p ↦
          let z = ltb→le 0 n p in
          rw p (λ c q r. absurd (omega (arith, length-moved)), Perm.refl moved)
    ]

  -- On a valid queue that is not empty, `dequeue` returns the value of a least entry, and the
  -- queue that is left is valid and holds exactly the others.
  pub dequeue-Dequeued :
      (q : PriorityQueue T)
      → IsValid q
      → 0 < length q.items
      → (r : T × PriorityQueue T) × (dequeue blank q ≡ some r) × Dequeued q r
  unfolding dequeue
  dequeue-Dequeued q v h =
      let a = q.items in
      let n = length a - 1 in
      let size : length a ≡ suc n = omega arith in
      let t = moved-Sifted a n size v.heap in
      let same = Perm.trans (Perm.cons (get_or a 0 blank) t.1) (moved-perm a n size) in
      let count = Perm-length same in
      let busy : (length a == 0) ≡ false = ground arith in
      (
        ((get_or a 0 blank).value, record q { items = _ }),
        rw busy,
        record {
          entry = get_or a 0 blank;
          returned = refl;
          same = same;
          least = le_of_mem a (key blank a 0) (λ i. root_least blank a i v.heap);
          valid = record { heap = t.0; fits = omega arith; grows = v.grows };
        },
      )
