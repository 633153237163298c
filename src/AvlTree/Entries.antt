-- ===== src/AvlTree/Entries.antt =====
-- The abstract view of an AVL tree: a list of entries in strictly ascending order of key, with the
-- operations that the class promises on it.
use apgitproj.Base.{
  ◌≡◌, refl, ap, ◌∙◌, Bool, ◌&&◌, Option, none, some, List, [], ◌∷◌, ◌++◌, lt, eq, gt, arith, ℤ,
  compare_ℤ, leb_ℤ, ◌<ℤ◌, ◌≤ℤ◌, filter_by,
}

module _ {V : Type 0} where
  abbrev pub All : (ℤ → Type 0) → List (ℤ × V) → Type 0
  All P [] = Unit
  All P (e ∷ es) = P e.0 × All P es

  -- Strictly ascending keys.
  abbrev pub IsSorted : List (ℤ × V) → Type 0
  IsSorted [] = Unit
  IsSorted (e ∷ es) = All (λ k. e.0 <ℤ k) es × IsSorted es

  unfoldable pub insert_entry : ℤ → V → List (ℤ × V) → List (ℤ × V)
  insert_entry k v [] = (k, v) ∷ []
  insert_entry k v (e ∷ es) = elim (compare_ℤ k e.0) [
    | lt ↦ (k, v) ∷ e ∷ es
    | eq ↦ (e.0, v) ∷ es
    | gt ↦ e ∷ insert_entry k v es
  ]

  unfoldable pub delete_entry : ℤ → List (ℤ × V) → List (ℤ × V)
  delete_entry k [] = []
  delete_entry k (e ∷ es) = elim (compare_ℤ k e.0) [
    | lt ↦ e ∷ es
    | eq ↦ es
    | gt ↦ e ∷ delete_entry k es
  ]

  unfoldable pub lookup_entry : ℤ → List (ℤ × V) → Option V
  lookup_entry k [] = none
  lookup_entry k (e ∷ es) = elim (compare_ℤ k e.0) [ eq ↦ some e.1 | _ ↦ lookup_entry k es ]

  abbrev pub in_range : ℤ → ℤ → ℤ × V → Bool
  in_range lo hi e = leb_ℤ lo e.0 && leb_ℤ e.0 hi

  pub All-imp :
      (P Q : ℤ → Type 0) → ((k : ℤ) → P k → Q k) → (es : List (ℤ × V)) → All P es → All Q es
  All-imp P Q f [] a = tt
  All-imp P Q f (e ∷ es) a = (f e.0 a.0, All-imp P Q f es a.1)

  pub All-append_inv :
      (P : ℤ → Type 0) (xs ys : List (ℤ × V)) → All P (xs ++ ys) → All P xs × All P ys
  All-append_inv P [] ys a = (tt, a)
  All-append_inv P (e ∷ xs) ys a = let r = All-append_inv P xs ys a.1 in ((a.0, r.0), r.1)

  -- The parts of a sorted list that is split at an entry.
  pub IsSorted-middle :
      (xs : List (ℤ × V)) (k : ℤ) (v : V) (ys : List (ℤ × V))
      → IsSorted (xs ++ (k, v) ∷ ys)
      → IsSorted xs × All (λ q. q <ℤ k) xs × All (λ q. k <ℤ q) ys × IsSorted ys
  IsSorted-middle [] k v ys s = (tt, tt, s.0, s.1)
  IsSorted-middle (e ∷ xs) k v ys s =
      let r = IsSorted-middle xs k v ys s.1 in
      let a = All-append_inv (λ q. e.0 <ℤ q) xs ((k, v) ∷ ys) s.0 in
      ((a.0, r.0), (a.1.0, r.1), r.2, r.3)

  pub insert_entry-append :
      (k : ℤ) (v : V) (xs ys : List (ℤ × V))
      → All (λ q. q <ℤ k) xs
      → insert_entry k v (xs ++ ys) ≡ xs ++ insert_entry k v ys
  unfolding insert_entry
  insert_entry-append k v [] ys a = refl
  insert_entry-append k v (e ∷ xs) ys a = ground (arith, insert_entry-append k v xs ys a.1)

  pub insert_entry-before :
      (k : ℤ) (v : V) (xs : List (ℤ × V)) (b : ℤ) (w : V) (ys : List (ℤ × V))
      → k <ℤ b
      → insert_entry k v (xs ++ (b, w) ∷ ys) ≡ insert_entry k v xs ++ (b, w) ∷ ys
  unfolding insert_entry
  insert_entry-before k v [] b w ys h = ground arith
  insert_entry-before k v (e ∷ xs) b w ys h = ground (arith, insert_entry-before k v xs b w ys h)

  pub delete_entry-append :
      (k : ℤ) (xs ys : List (ℤ × V))
      → All (λ q. q <ℤ k) xs
      → delete_entry k (xs ++ ys) ≡ xs ++ delete_entry k ys
  unfolding delete_entry
  delete_entry-append k [] ys a = refl
  delete_entry-append k (e ∷ xs) ys a = ground (arith, delete_entry-append k xs ys a.1)

  pub delete_entry-before :
      (k : ℤ) (xs : List (ℤ × V)) (b : ℤ) (w : V) (ys : List (ℤ × V))
      → k <ℤ b
      → delete_entry k (xs ++ (b, w) ∷ ys) ≡ delete_entry k xs ++ (b, w) ∷ ys
  unfolding delete_entry
  delete_entry-before k [] b w ys h = ground arith
  delete_entry-before k (e ∷ xs) b w ys h = ground (arith, delete_entry-before k xs b w ys h)

  pub lookup_entry-append :
      (k : ℤ) (xs ys : List (ℤ × V))
      → All (λ q. q <ℤ k) xs
      → lookup_entry k (xs ++ ys) ≡ lookup_entry k ys
  unfolding lookup_entry
  lookup_entry-append k [] ys a = refl
  lookup_entry-append k (e ∷ xs) ys a = ground (arith, lookup_entry-append k xs ys a.1)

  pub lookup_entry_above :
      (k : ℤ) (ys : List (ℤ × V)) → All (λ q. k <ℤ q) ys → lookup_entry k ys ≡ none
  unfolding lookup_entry
  lookup_entry_above k [] a = refl
  lookup_entry_above k (e ∷ ys) a = ground (arith, lookup_entry_above k ys a.1)

  pub lookup_entry-before :
      (k : ℤ) (xs : List (ℤ × V)) (b : ℤ) (w : V) (ys : List (ℤ × V))
      → k <ℤ b
      → All (λ q. b <ℤ q) ys
      → lookup_entry k (xs ++ (b, w) ∷ ys) ≡ lookup_entry k xs
  unfolding lookup_entry
  lookup_entry-before k [] b w ys h a = ground (
    arith,
    lookup_entry_above k ys (All-imp (λ q. b <ℤ q) (λ q. k <ℤ q) (λ q c. omega arith) ys a),
  )
  lookup_entry-before k (e ∷ xs) b w ys h a = ground (arith, lookup_entry-before k xs b w ys h a)

  All-insert_entry :
      (P : ℤ → Type 0) (k : ℤ) (v : V) (es : List (ℤ × V))
      → P k
      → All P es
      → All P (insert_entry k v es)
  unfolding insert_entry
  All-insert_entry P k v [] p a = (p, tt)
  All-insert_entry P k v (e ∷ es) p a = ground (arith, All-insert_entry P k v es p a.1)

  pub insert_entry-IsSorted :
      (k : ℤ) (v : V) (es : List (ℤ × V)) → IsSorted es → IsSorted (insert_entry k v es)
  unfolding insert_entry
  insert_entry-IsSorted k v [] s = (tt, tt)
  insert_entry-IsSorted k v (e ∷ es) s = ground (
    arith,
    insert_entry-IsSorted k v es s.1,
    All-insert_entry (λ q. e.0 <ℤ q) k v es,
    λ (h : k <ℤ e.0). All-imp (λ q. e.0 <ℤ q) (λ q. k <ℤ q) (λ q c. omega arith) es s.0,
  )

  All-delete_entry :
      (P : ℤ → Type 0) (k : ℤ) (es : List (ℤ × V)) → All P es → All P (delete_entry k es)
  unfolding delete_entry
  All-delete_entry P k [] a = tt
  All-delete_entry P k (e ∷ es) a = ground (arith, All-delete_entry P k es a.1)

  pub delete_entry-IsSorted :
      (k : ℤ) (es : List (ℤ × V)) → IsSorted es → IsSorted (delete_entry k es)
  unfolding delete_entry
  delete_entry-IsSorted k [] s = tt
  delete_entry-IsSorted k (e ∷ es) s =
      ground (arith, delete_entry-IsSorted k es s.1, All-delete_entry (λ q. e.0 <ℤ q) k es s.0)

  -- The laws of a map, on sorted lists.
  pub lookup-insert_entry :
      (q k : ℤ) (v : V) (es : List (ℤ × V))
      → lookup_entry q (insert_entry k v es)
        ≡ elim (compare_ℤ q k) [ eq ↦ some v | _ ↦ lookup_entry q es ]
  unfolding lookup_entry insert_entry
  lookup-insert_entry q k v [] = ground arith
  lookup-insert_entry q k v (e ∷ es) = ground (arith, lookup-insert_entry q k v es)

  pub lookup-delete_entry :
      (q k : ℤ) (es : List (ℤ × V))
      → IsSorted es
      → lookup_entry q (delete_entry k es)
        ≡ elim (compare_ℤ q k) [ eq ↦ none | _ ↦ lookup_entry q es ]
  unfolding lookup_entry delete_entry
  lookup-delete_entry q k [] s = ground arith
  lookup-delete_entry q k (e ∷ es) s = ground (
    arith,
    lookup-delete_entry q k es s.1,
    λ (h : q ≤ℤ e.0).
        lookup_entry_above q es (All-imp (λ p. e.0 <ℤ p) (λ p. q <ℤ p) (λ p c. omega arith) es s.0),
  )

  -- The operations on a list that is split at an entry, where the key stands at it or after it.
  module _ (k : ℤ) (xs : List (ℤ × V)) (w : V) (ys : List (ℤ × V)) (a : All (λ q. q <ℤ k) xs) where
    pub insert_entry_here : (v : V) → insert_entry k v (xs ++ (k, w) ∷ ys) ≡ xs ++ (k, v) ∷ ys
    insert_entry_here v =
        insert_entry-append k v xs ((k, w) ∷ ys) a
        ∙ ap (◌++◌ xs) (unfold insert_entry in ground arith)

    pub delete_entry_here : delete_entry k (xs ++ (k, w) ∷ ys) ≡ xs ++ ys
    delete_entry_here =
        delete_entry-append k xs ((k, w) ∷ ys) a
        ∙ ap (◌++◌ xs) (unfold delete_entry in ground arith)

    pub lookup_entry_here : lookup_entry k (xs ++ (k, w) ∷ ys) ≡ some w
    lookup_entry_here =
        lookup_entry-append k xs ((k, w) ∷ ys) a ∙ (unfold lookup_entry in ground arith)

    module _ (key : ℤ) (c : k <ℤ key) where
      low : All (λ q. q <ℤ key) xs
      low = All-imp (λ q. q <ℤ k) (λ q. q <ℤ key) (λ q d. omega arith) xs a

      pub insert_entry_after :
          (v : V) → insert_entry key v (xs ++ (k, w) ∷ ys) ≡ xs ++ (k, w) ∷ insert_entry key v ys
      insert_entry_after v =
          insert_entry-append key v xs ((k, w) ∷ ys) low
          ∙ ap (◌++◌ xs) (unfold insert_entry in ground arith)

      pub delete_entry_after :
          delete_entry key (xs ++ (k, w) ∷ ys) ≡ xs ++ (k, w) ∷ delete_entry key ys
      delete_entry_after =
          delete_entry-append key xs ((k, w) ∷ ys) low
          ∙ ap (◌++◌ xs) (unfold delete_entry in ground arith)

      pub lookup_entry_after : lookup_entry key (xs ++ (k, w) ∷ ys) ≡ lookup_entry key ys
      lookup_entry_after =
          lookup_entry-append key xs ((k, w) ∷ ys) low ∙ (unfold lookup_entry in ground arith)

  module _ (lo hi : ℤ) where
    pub in_range_none_below :
        (k : ℤ) (es : List (ℤ × V))
        → All (λ q. q <ℤ k) es
        → k ≤ℤ lo
        → filter_by (in_range lo hi) es ≡ []
    unfolding filter_by
    in_range_none_below k [] a h = refl
    in_range_none_below k (e ∷ es) a h = ground (arith, in_range_none_below k es a.1 h)

    pub in_range_none_above :
        (k : ℤ) (es : List (ℤ × V))
        → All (λ q. k <ℤ q) es
        → hi ≤ℤ k
        → filter_by (in_range lo hi) es ≡ []
    unfolding filter_by
    in_range_none_above k [] a h = refl
    in_range_none_above k (e ∷ es) a h = ground (arith, in_range_none_above k es a.1 h)
