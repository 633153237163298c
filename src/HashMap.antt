-- ===== src/HashMap.antt =====
-- src/common/HashMap.h: the chained hash maps. `HashMap` and `IntHashMap` are one template text
-- over two key types with their comparison and hash, which are the instances `text_key` and
-- `int_key`. A bucket is the list of its nodes; `bucketCount_` is the number of buckets.
-- `unsigned long` has 64 bits, as on the Linux targets of the Makefile.
pub mod Hashing
pub mod Nodes
pub mod Buckets
pub mod Invariant
pub mod Methods
use apgitproj.Base.{
  ℕ, zero, suc, ◌+◌, ◌<◌, ◌≡◌, Bool, true, false, Option, none, some, List, [], ◌∷◌, ◌++◌, ℤ, pos,
  ◌+ℤ◌, ◌-ℤ◌, length, set, get_or, replicate, compare_ℤ, eq, if◌then◌else◌,
}
use apgitproj.HashMap.Hashing.{Key}

abbrev pub Bucket : Type 0 → Type 0 → Type 0
Bucket K V = List (K × V)

pub record HashMap (K V : Type 0) : Type 0 where
  pub buckets : List (Bucket K V)
  pub size : ℤ

pub new_map : {K V : Type 0} → ℕ → HashMap K V
new_map buckets = record { buckets = replicate buckets []; size = pos 0 }

unfoldable pub chain_calls : {K V : Type 0} → List (Bucket K V) → List (K × V)
chain_calls [] = []
chain_calls (nodes ∷ cs) = nodes ++ chain_calls cs

-- The calls that `forEach` makes.
unfoldable pub for_each : {K V : Type 0} → HashMap K V → List (K × V)
unfolding chain_calls
for_each m = chain_calls m.buckets

module _ {K V : Type 0} ⦃key : Key K⦄ where
  -- The value at the first node of a chain with the key.
  unfoldable pub find : K → Bucket K V → Option V
  find k [] = none
  find k (head ∷ nodes) = if key.equal head.0 k then some head.1 else find k nodes

  -- `cur->value = val` at that node.
  unfoldable pub overwrite : K → V → Bucket K V → Bucket K V
  overwrite k v [] = []
  overwrite k v (head ∷ nodes) =
      if key.equal head.0 k then (head.0, v) ∷ nodes else head ∷ overwrite k v nodes

  -- That node unlinked, from its predecessor or from the bucket.
  unfoldable pub unlink : K → Bucket K V → Bucket K V
  unlink k [] = []
  unlink k (head ∷ nodes) = if key.equal head.0 k then nodes else head ∷ unlink k nodes

  abbrev pub index : HashMap K V → K → ℕ
  index m k = key.hash k (length m.buckets)

  abbrev pub bucket : HashMap K V → K → Bucket K V
  bucket m k = get_or m.buckets (index m k) []

  unfoldable pub put : HashMap K V → K → V → HashMap K V
  put m k v = elim (find k (bucket m k)) [
    | some _ ↦ record m { buckets = set m.buckets (index m k) (overwrite k v (bucket m k)) }
    | none ↦ record {
      buckets = set m.buckets (index m k) ((k, v) ∷ bucket m k);
      size = m.size +ℤ pos 1;
    }
  ]

  unfoldable pub get : HashMap K V → K → Option V
  get m k = find k (bucket m k)

  unfoldable pub contains : HashMap K V → K → Bool
  contains m k = elim (get m k) [ some _ ↦ true | none ↦ false ]

  -- The map after the call, and whether the key was found.
  unfoldable pub remove : HashMap K V → K → HashMap K V × Bool
  remove m k = elim (find k (bucket m k)) [
    | some _ ↦ (
      record {
        buckets = set m.buckets (index m k) (unlink k (bucket m k));
        size = m.size -ℤ pos 1;
      },
      true,
    )
    | none ↦ (m, false)
  ]

  abbrev pub is_empty : HashMap K V → Bool
  is_empty m = elim (compare_ℤ m.size (pos 0)) [ eq ↦ true | _ ↦ false ]
