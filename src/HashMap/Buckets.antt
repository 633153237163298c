-- ===== src/HashMap/Buckets.antt =====
-- HashMap.h: the array of buckets, what one write to it changes, and the walk of `forEach`.
use apgitproj.Base.{
  ℕ, zero, suc, ◌+◌, ◌<◌, ◌≡◌, refl, ◌≢◌, List, [], ◌∷◌, ◌++◌, length, set, get_or, length-append,
  arith,
}
use apgitproj.HashMap.Hashing.{Key}
use apgitproj.HashMap.{Bucket, chain_calls}
use apgitproj.HashMap.Nodes.{count}

module _ {K V : Type 0} where
  pub length-chain_calls-set :
      (bs : List (Bucket K V)) (i : ℕ) (c : Bucket K V)
      → i < length bs
      → length (chain_calls (set bs i c)) + length (get_or bs i [])
        ≡ length (chain_calls bs) + length c
  unfolding chain_calls
  length-chain_calls-set [] i c h = absurd (omega arith)
  length-chain_calls-set (b ∷ bs) zero c h =
      omega (arith, length-append c (chain_calls bs), length-append b (chain_calls bs))
  length-chain_calls-set (b ∷ bs) (suc i) c h = omega (
    arith,
    length-append b (chain_calls (set bs i c)),
    length-append b (chain_calls bs),
    length-chain_calls-set bs i c,
  )

module _ {K V : Type 0} ⦃key : Key K⦄ where
  count-append : (q : K) (c d : Bucket K V) → count q (c ++ d) ≡ count q c + count q d
  unfolding count
  count-append q [] d = omega arith
  count-append q (e ∷ c) d = omega (arith, count-append q c d)

  count-chain_calls_none :
      (q : K) (bs : List (Bucket K V))
      → ((j : ℕ) → count q (get_or bs j []) ≡ 0)
      → count q (chain_calls bs) ≡ 0
  unfolding chain_calls
  count-chain_calls_none q [] h = unfold count in refl
  count-chain_calls_none q (b ∷ bs) h =
      omega
        (arith, count-append q b (chain_calls bs), h 0, count-chain_calls_none q bs λ j. h (suc j))

  -- A key that stands in one bucket only is met by `forEach` as often as in that bucket.
  pub count-chain_calls :
      (q : K) (bs : List (Bucket K V)) (i : ℕ)
      → ((j : ℕ) → j ≢ i → count q (get_or bs j []) ≡ 0)
      → count q (chain_calls bs) ≡ count q (get_or bs i [])
  unfolding chain_calls
  count-chain_calls q [] i h = refl
  count-chain_calls q (b ∷ bs) zero h = omega (
    arith,
    count-append q b (chain_calls bs),
    count-chain_calls_none q bs λ j. h (suc j) (omega arith),
  )
  count-chain_calls q (b ∷ bs) (suc i) h = omega (
    arith,
    count-append q b (chain_calls bs),
    h 0 (omega arith),
    count-chain_calls q bs i λ j n. h (suc j) (omega arith),
  )
