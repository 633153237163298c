-- ===== src/HashMap/Invariant.antt =====
-- HashMap.h: the invariant of the table, and the effect of rewriting one bucket.
use apgitproj.Base.{
  ℕ, zero, suc, ◌+◌, ◌≤◌, ◌<◌, ◌≡◌, refl, ap, sym, ◌∙◌, inl, inr, false, Option, none, List, [],
  length, set, get_or, replicate, get_or-set, length-set, length-replicate, get_or-replicate,
  Bool-cases, arith, ◌==◌, ==_iff, if◌then◌else◌, ℤ, pos, ◌+ℤ◌, ◌-ℤ◌, pos_add_one, pos_sub_one,
}
use apgitproj.HashMap.Hashing.{Key}
use apgitproj.HashMap.{Bucket, HashMap, new_map, find, index, bucket, get, chain_calls}
use apgitproj.HashMap.Nodes.{count}
use apgitproj.HashMap.Buckets.{length-chain_calls-set}

chain_calls-replicate :
    (K V : Type 0) (n : ℕ) → length (chain_calls {K = K} {V = V} (replicate n [])) ≡ 0
unfolding chain_calls
chain_calls-replicate K V zero = refl
chain_calls-replicate K V (suc n) = chain_calls-replicate K V n

module _ {K V : Type 0} ⦃key : Key K⦄ where
  -- A key stands at most once in its own bucket, and in no other.
  abbrev pub IsPlaced : List (Bucket K V) → Type 0
  IsPlaced bs =
      (q : K) (i : ℕ) → count q (get_or bs i []) ≤ (if key.hash q (length bs) == i then 1 else 0)

  pub record IsHashed (m : HashMap K V) : Type 0 where
    pub roomy : 0 < length m.buckets
    pub placed : IsPlaced m.buckets
    pub counted : m.size ≡ pos (length (chain_calls m.buckets))

  -- The constructor builds a valid empty map, for any positive number of buckets.
  pub new_map-IsHashed : (n : ℕ) → 0 < n → IsHashed (new_map {K = K} {V = V} n)
  unfolding new_map count
  new_map-IsHashed n h = record {
    roomy = rw (length-replicate {0} {A = Bucket K V} n []) h;
    placed = λ q i. rw (get_or-replicate {0} {A = Bucket K V} n i []) (omega arith);
    counted = ap pos (sym (chain_calls-replicate K V n));
  }

  -- It has no value for any key.
  pub get-new_map : (n : ℕ) (k : K) → get (new_map {K = K} {V = V} n) k ≡ none
  unfolding new_map get find
  get-new_map n k =
      ap (find k) (get_or-replicate {0} {A = Bucket K V} n (index (new_map {K = K} {V = V} n) k) [])

  module _ (m : HashMap K V) (valid : IsHashed m) (k : K) where
    inside : index m k < length m.buckets
    inside = key.hash-lt k (length m.buckets) valid.roomy

    -- One bucket rewritten: the others are read as before.
    bucket-set :
        (c : Bucket K V) (q : K)
        → get_or
            (set m.buckets (index m k) c)
            (key.hash q (length (set m.buckets (index m k) c)))
            []
          ≡ (if index m k == index m q then c else bucket m q)
    bucket-set c q =
        rw (length-set m.buckets (index m k) c)
          (get_or-set m.buckets (index m k) (index m q) c [] inside)

    pub set-IsHashed :
        (c : Bucket K V) (size : ℤ)
        → ((q : K) → count q c ≤ (if index m q == index m k then 1 else 0))
        → size ≡ pos (length (chain_calls (set m.buckets (index m k) c)))
        → IsHashed (record { buckets = set m.buckets (index m k) c; size = size })
    set-IsHashed c size once counted = record {
      roomy = rw (length-set m.buckets (index m k) c) valid.roomy;
      placed = λ q i.
          rw (length-set m.buckets (index m k) c, get_or-set m.buckets (index m k) i c [] inside)
            (ground (arith, once q, valid.placed q i));
      counted = counted;
    }

    -- One bucket rewritten: what `get` returns, given what `find` returns in the new bucket.
    pub get-set :
        (c : Bucket K V) (size : ℤ) (q : K) (o : Option V)
        → find q c ≡ (if key.equal k q then o else find q (bucket m k))
        → get (record { buckets = set m.buckets (index m k) c; size = size }) q
          ≡ (if key.equal k q then o else get m q)
    unfolding get
    get-set c size q o h = rw (bucket-set c q) (elim (Bool-cases (index m k == index m q)) [
      | inl same ↦
          let at : index m k ≡ index m q = (==_iff (index m k) (index m q)).0 same in
          rw same (h ∙ ap (λ i. if key.equal k q then o else find q (get_or m.buckets i [])) at)
      | inr apart ↦ rw apart (rw (apart_keys q apart))
    ])
      where
        apart_keys : (q : K) → (index m k == index m q) ≡ false → key.equal k q ≡ false
        apart_keys q apart = elim (Bool-cases (key.equal k q)) [
          | inr e ↦ e
          | inl e ↦
              let at : index m k ≡ index m q = ap (index m) ((key.equal_iff k q).0 e) in
              absurd (ground arith)
        ]

    -- The number of entries after one bucket is rewritten.
    pub resized :
        (c : Bucket K V)
        → length (chain_calls (set m.buckets (index m k) c)) + length (bucket m k)
          ≡ length (chain_calls m.buckets) + length c
    resized c = length-chain_calls-set m.buckets (index m k) c inside

    pub counted_same :
        (c : Bucket K V)
        → length c ≡ length (bucket m k)
        → m.size ≡ pos (length (chain_calls (set m.buckets (index m k) c)))
    counted_same c e = valid.counted ∙ ap pos (omega (arith, resized c))

    pub counted_more :
        (c : Bucket K V)
        → length c ≡ suc (length (bucket m k))
        → m.size +ℤ pos 1 ≡ pos (length (chain_calls (set m.buckets (index m k) c)))
    counted_more c e =
        ap (λ z. z +ℤ pos 1) valid.counted
        ∙ pos_add_one (length (chain_calls m.buckets))
        ∙ ap pos (omega (arith, resized c))

    pub counted_less :
        (c : Bucket K V)
        → length c + 1 ≡ length (bucket m k)
        → m.size -ℤ pos 1 ≡ pos (length (chain_calls (set m.buckets (index m k) c)))
    counted_less c e =
        let n = length (chain_calls (set m.buckets (index m k) c)) in
        let total : length (chain_calls m.buckets) ≡ suc n = omega (arith, resized c) in
        ap (λ z. z -ℤ pos 1) valid.counted ∙ ap (λ z. pos z -ℤ pos 1) total ∙ pos_sub_one n
