-- ===== src/Graph/Sort.antt =====
-- Graph.h: `sortEdges`, a selection sort in place, orders the edges by weight.
use mathlib.Core.List.{Perm, Memᴰ}
use mathlib.Core.List.Memᴰ.{head, tail}
use mathlib.Core.List.Perm
use apgitproj.Base.{
  ℕ, zero, suc, ◌+◌, ◌-◌, ◌≤◌, ◌<◌, ◌≡◌, ap, ◌∙◌, sym, Bool-cases, inl, inr, List, [], ◌∷◌, length,
  length-set, set, get_or, get_or-set, ltb, ◌==◌, ==_iff, if◌then◌else◌, arith,
}
use apgitproj.Graph.{Edge, blank_edge, min_index, sort_from, sort_edges}
use apgitproj.PriorityQueue.Array.{exchange-perm, Perm-length}

-- The weight at an index.
abbrev pub weight_at : List Edge → ℕ → ℕ
weight_at es k = (get_or es k blank_edge).weight

-- `m` is the place of a least weight from `i` on.
record IsLeast (es : List Edge) (lo hi j n m0 m : ℕ) : Type 0 where
  from : lo ≤ m
  below : m < hi
  first : weight_at es m ≤ weight_at es m0
  least : (k : ℕ) → j ≤ k → k < j + n → weight_at es m ≤ weight_at es k

min_index-IsLeast :
    (es : List Edge) (lo hi j n m0 : ℕ)
    → lo ≤ m0
    → lo ≤ j
    → m0 < hi
    → j + n ≤ hi
    → IsLeast es lo hi j n m0 (min_index es j n m0)
unfolding min_index
min_index-IsLeast es lo hi j zero m0 a b c d = record {
  from = a;
  below = c;
  first = omega arith;
  least = λ k h g. absurd (omega arith);
}
min_index-IsLeast es lo hi j (suc n) m0 a b c d =
    elim (Bool-cases (ltb (weight_at es j) (weight_at es m0))) [
      | inl e ↦
          let r =
            min_index-IsLeast es lo hi (suc j) n j b (omega arith) (omega arith) (omega arith) in
          rw e (record {
            from = r.from;
            below = r.below;
            first = ground (arith, r.first);
            least = λ k h g. elim (Bool-cases (j == k)) [
              | inl q ↦
                  let same = ap (weight_at es) ((==_iff j k).0 q) in omega (arith, same, r.first)
              | inr q ↦ r.least k (ground arith) (omega arith)
            ];
          })
      | inr e ↦
          let r = min_index-IsLeast es lo hi (suc j) n m0 a (omega arith) c (omega arith) in
          rw e (record {
            from = r.from;
            below = r.below;
            first = r.first;
            least = λ k h g. elim (Bool-cases (j == k)) [
              | inl q ↦
                  let same = ap (weight_at es) ((==_iff j k).0 q) in ground (arith, same, r.first)
              | inr q ↦ r.least k (ground arith) (omega arith)
            ];
          })
    ]

-- The first `i` edges are in order and none of the others is lighter.
abbrev IsSortedTo : ℕ → List Edge → Type 0
IsSortedTo i es = (a b : ℕ) → a < i → a < b → b < length es → weight_at es a ≤ weight_at es b

module _ (es : List Edge) (i m : ℕ) (hi : i < length es) (hm : m < length es) where
  -- The two edges change places.
  abbrev exchanged : List Edge
  exchanged = set (set es i (get_or es m blank_edge)) m (get_or es i blank_edge)

  length-exchanged : length exchanged ≡ length es
  length-exchanged =
      length-set (set es i (get_or es m blank_edge)) m (get_or es i blank_edge)
      ∙ length-set es i (get_or es m blank_edge)

  weight_at-exchanged :
      (c : ℕ)
      → weight_at exchanged c
        ≡ (if m == c then weight_at es i else if i == c then weight_at es m else weight_at es c)
  weight_at-exchanged c = ground (
    arith,
    ap (λ (e : Edge). e.weight)
        (get_or-set (set es i (get_or es m blank_edge)) m c (get_or es i blank_edge) blank_edge
          (rw (length-set es i (get_or es m blank_edge)) hm)),
    ap (λ (e : Edge). e.weight) (get_or-set es i c (get_or es m blank_edge) blank_edge hi),
  )

  exchanged-perm : Perm exchanged es
  exchanged-perm = exchange-perm es i m blank_edge hi hm

  exchanged-IsSortedTo :
      i ≤ m
      → ((k : ℕ) → i ≤ k → k < length es → weight_at es m ≤ weight_at es k)
      → IsSortedTo i es
      → IsSortedTo (suc i) exchanged
  exchanged-IsSortedTo le least sorted a b ha hb hl =
      let size = length-exchanged in
      ground (
        arith,
        size,
        weight_at-exchanged a,
        weight_at-exchanged b,
        sorted a b,
        sorted a i,
        sorted a m,
        least b,
        least i,
        ap (weight_at es),
      )

-- A round of the sort: the least edge from `i` on comes to the place `i`.
abbrev round : List Edge → ℕ → List Edge
round es i =
    let m = min_index es (suc i) (length es - suc i) i in
    if m == i then es else set (set es i (get_or es m blank_edge)) m (get_or es i blank_edge)

round-IsSortedTo :
    (es : List Edge) (i : ℕ)
    → i < length es
    → IsSortedTo i es
    → Perm (round es i) es × IsSortedTo (suc i) (round es i)
round-IsSortedTo es i hi sorted =
    let m = min_index es (suc i) (length es - suc i) i in
    let r =
      min_index-IsLeast es i (length es) (suc i) (length es - suc i) i (omega arith) (omega arith)
        hi (omega arith) in
    let least : (k : ℕ) → i ≤ k → k < length es → weight_at es m ≤ weight_at es k = λ k h g.
      elim (Bool-cases (i == k)) [
        | inl q ↦ let same = ap (weight_at es) ((==_iff i k).0 q) in omega (arith, same, r.first)
        | inr q ↦ r.least k (ground arith) (omega arith)
      ] in
    elim (Bool-cases (m == i)) [
      | inl e ↦
          let same = ap (weight_at es) ((==_iff m i).0 e) in
          rw e (
            Perm.refl es,
            λ a b ha hb hl. ground (arith, sorted a b, least b, same, ap (weight_at es)),
          )
      | inr e ↦ rw e (
        exchanged-perm es i m hi r.below,
        exchanged-IsSortedTo es i m hi r.below r.from least sorted,
      )
    ]

sort_from-IsSortedTo :
    (i n : ℕ) (es : List Edge)
    → i + n ≤ length es
    → IsSortedTo i es
    → Perm (sort_from i n es) es × IsSortedTo (i + n) (sort_from i n es)
unfolding sort_from
sort_from-IsSortedTo i zero es h sorted = (Perm.refl es, λ a b ha. sorted a b (omega arith))
sort_from-IsSortedTo i (suc n) es h sorted =
    let r = round-IsSortedTo es i (omega arith) sorted in
    let rest = sort_from-IsSortedTo (suc i) n (round es i) (omega (arith, Perm-length r.0)) r.1 in
    (Perm.trans rest.0 r.0, λ a b ha. rest.1 a b (omega arith))

-- No edge is followed by a lighter one.
pub data IsSorted : List Edge → Type 0 where
  none_left : IsSorted []
  first :
      (e : Edge) (es : List Edge)
      → ((f : Edge) → Memᴰ f es → e.weight ≤ f.weight)
      → IsSorted es
      → IsSorted (e ∷ es)

place_of :
    (es : List Edge) (f : Edge)
    → Memᴰ f es
    → (k : ℕ) × (k < length es) × (get_or es k blank_edge ≡ f)
place_of [] f m = elim m [ ]
place_of (e ∷ es) f (head same) = (0, omega arith, sym same)
place_of (e ∷ es) f (tail m) = let r = place_of es f m in (suc r.0, omega (arith, r.1), r.2)

by_places :
    (es : List Edge)
    → ((a b : ℕ) → a < b → b < length es → weight_at es a ≤ weight_at es b)
    → IsSorted es
by_places [] h = none_left
by_places (e ∷ es) h =
    first e es light (by_places es (λ a b l g. h (suc a) (suc b) (omega arith) (omega arith)))
  where
    light : (f : Edge) → Memᴰ f es → e.weight ≤ f.weight
    light f m =
        let r = place_of es f m in
        omega
          (arith, h 0 (suc r.0) (omega arith) (omega (arith, r.1)), ap (λ (x : Edge). x.weight) r.2)

-- `sortEdges` leaves the same edges in an order of weight.
pub sort_edges-IsSorted : (es : List Edge) → Perm (sort_edges es) es × IsSorted (sort_edges es)
unfolding sort_edges
sort_edges-IsSorted es =
    let r =
      sort_from-IsSortedTo 0 (length es - 1) es (omega arith) (λ a b h. absurd (omega arith)) in
    (r.0, by_places (sort_edges es) (λ a b h g. r.1 a b (omega (arith, Perm-length r.0)) h g))
