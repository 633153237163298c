-- ===== src/HashMap/Nodes.antt =====
-- HashMap.h: the nodes of one bucket.
use apgitproj.Base.{
  ℕ, ◌+◌, ◌≤◌, ◌≡◌, refl, ◌≢◌, none, some, [], ◌∷◌, ◌++◌, length, arith, if◌then◌else◌,
}
use apgitproj.HashMap.Hashing.{Key}
use apgitproj.HashMap.{Bucket, find, overwrite, unlink}

module _ {K V : Type 0} ⦃key : Key K⦄ where
  -- The number of nodes with the key.
  unfoldable pub count : K → Bucket K V → ℕ
  count k [] = 0
  count k (head ∷ nodes) = (if key.equal head.0 k then 1 else 0) + count k nodes

  pub find-eq-none : (k : K) (nodes : Bucket K V) → count k nodes ≡ 0 → find k nodes ≡ none
  unfolding count find
  find-eq-none k [] h = refl
  find-eq-none k (head ∷ nodes) h = ground (arith, find-eq-none k nodes)

  pub count-eq-zero : (k : K) (nodes : Bucket K V) → find k nodes ≡ none → count k nodes ≡ 0
  unfolding count find
  count-eq-zero k [] h = refl
  count-eq-zero k (head ∷ nodes) h = ground (arith, count-eq-zero k nodes)

  pub find-append :
      (k : K) (nodes d : Bucket K V)
      → find k (nodes ++ d) ≡ elim (find k nodes) [ some v ↦ some v | none ↦ find k d ]
  unfolding find
  find-append k [] d = refl
  find-append k (head ∷ nodes) d = ground (arith, find-append k nodes d)

  module _ (k q : K) where
    pub find-overwrite :
        (v : V) (nodes : Bucket K V)
        → find k nodes ≢ none
        → find q (overwrite k v nodes) ≡ (if key.equal k q then some v else find q nodes)
    unfolding find overwrite
    find-overwrite v [] h = absurd (h refl)
    find-overwrite v (head ∷ nodes) h = ground (
      arith,
      find-overwrite v nodes,
      key.equal_iff head.0 k,
      key.equal_iff head.0 q,
      key.equal_iff k q,
    )

    pub find-cons :
        (v : V) (nodes : Bucket K V)
        → find q ((k, v) ∷ nodes) ≡ (if key.equal k q then some v else find q nodes)
    unfolding find
    find-cons v nodes = refl

    pub count-overwrite :
        (v : V) (nodes : Bucket K V) → count q (overwrite k v nodes) ≡ count q nodes
    unfolding count overwrite
    count-overwrite v [] = refl
    count-overwrite v (head ∷ nodes) = ground (arith, count-overwrite v nodes)

    pub find-unlink :
        (nodes : Bucket K V)
        → count k nodes ≤ 1
        → find q (unlink k nodes) ≡ (if key.equal k q then none else find q nodes)
    unfolding find unlink count
    find-unlink [] h = ground arith
    find-unlink (head ∷ nodes) h = ground (
      arith,
      find-unlink nodes,
      find-eq-none k nodes,
      key.equal_iff head.0 k,
      key.equal_iff head.0 q,
      key.equal_iff k q,
    )

    pub count-unlink-le : (nodes : Bucket K V) → count q (unlink k nodes) ≤ count q nodes
    unfolding count unlink
    count-unlink-le [] = omega arith
    count-unlink-le (head ∷ nodes) = ground (arith, count-unlink-le nodes)

  pub length-overwrite :
      (k : K) (v : V) (nodes : Bucket K V) → length (overwrite k v nodes) ≡ length nodes
  unfolding overwrite
  length-overwrite k v [] = refl
  length-overwrite k v (head ∷ nodes) = ground (arith, length-overwrite k v nodes)

  pub length-unlink :
      (k : K) (nodes : Bucket K V)
      → find k nodes ≢ none
      → length (unlink k nodes) + 1 ≡ length nodes
  unfolding unlink find
  length-unlink k [] h = absurd (h refl)
  length-unlink k (head ∷ nodes) h = ground (arith, length-unlink k nodes)
