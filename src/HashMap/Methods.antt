-- ===== src/HashMap/Methods.antt =====
-- HashMap.h: the methods keep the invariant of the table and act as a map from keys to values.
use apgitproj.Base.{
  ◌≤◌, ◌≡◌, refl, ap, sym, ◌∙◌, inl, inr, true, false, none, some, ◌∷◌, set, Option-cases,
  Bool-cases, arith, ◌==◌, if◌then◌else◌, pos, ◌+ℤ◌, ◌-ℤ◌,
}
use apgitproj.HashMap.Hashing.{Key}
use apgitproj.HashMap.{
  HashMap, find, overwrite, unlink, index, bucket, put, get, contains, remove, for_each,
}
use apgitproj.HashMap.Nodes.{
  count, find-eq-none, count-eq-zero, find-overwrite, find-cons, count-overwrite, find-unlink,
  count-unlink-le, length-overwrite, length-unlink,
}
use apgitproj.HashMap.Buckets.{count-chain_calls}
use apgitproj.HashMap.Invariant.{
  IsHashed, set-IsHashed, get-set, counted_same, counted_more, counted_less,
}

module _ {K V : Type 0} ⦃key : Key K⦄ where
  module _ (m : HashMap K V) (valid : IsHashed m) (k : K) where
    put_new :
        (v : V)
        → find k (bucket m k) ≡ none
        → put m k v ≡ record {
          buckets = set m.buckets (index m k) ((k, v) ∷ bucket m k);
          size = m.size +ℤ pos 1;
        }
    unfolding put
    put_new v e = rw (e, put)

    put_old :
        (v old : V)
        → find k (bucket m k) ≡ some old
        → put m k v ≡ record m { buckets = set m.buckets (index m k) (overwrite k v (bucket m k)) }
    unfolding put
    put_old v old e = rw (e, put)

    cons_once :
        (v : V) (q : K)
        → find k (bucket m k) ≡ none
        → count q ((k, v) ∷ bucket m k) ≤ (if index m q == index m k then 1 else 0)
    unfolding count
    cons_once v q e = elim (Bool-cases (key.equal k q)) [
      | inl s ↦
          let same : k ≡ q = (key.equal_iff k q).0 s in
          let at : index m k ≡ index m q = ap (index m) same in
          let absent : count q (bucket m k) ≡ 0 =
            ap (λ z. count z (bucket m k)) (sym same) ∙ count-eq-zero k (bucket m k) e in
          rw (s, absent) (ground arith)
      | inr s ↦ rw s (omega (arith, valid.placed q (index m k)))
    ]

    -- `put` keeps the table valid: one node is rewritten, or one is added and counted.
    pub put-IsHashed : (v : V) → IsHashed (put m k v)
    put-IsHashed v =
        let c = bucket m k in
        elim (Option-cases (find k c)) [
          | inl e ↦ rw (put_new v e) (
              set-IsHashed m valid k ((k, v) ∷ c) (m.size +ℤ pos 1) (λ q. cons_once v q e)
                (counted_more m valid k ((k, v) ∷ c) refl))
          | inr (old, e) ↦ rw (put_old v old e) (
              set-IsHashed m valid k (overwrite k v c) m.size
                (λ q. rw (count-overwrite k q v c) (valid.placed q (index m k)))
                (counted_same m valid k (overwrite k v c) (length-overwrite k v c)))
        ]

    -- `get` after `put`: the new value at the key, and every other key as it was.
    pub get-put : (v : V) (q : K) → get (put m k v) q ≡ (if key.equal k q then some v else get m q)
    get-put v q =
        let c = bucket m k in
        elim (Option-cases (find k c)) [
          | inl e ↦
              rw (put_new v e)
                (get-set m valid k ((k, v) ∷ c) (m.size +ℤ pos 1) q (some v) (find-cons k q v c))
          | inr (old, e) ↦ rw (put_old v old e) (
              get-set m valid k (overwrite k v c) m.size q (some v)
                (find-overwrite k q v c (λ n. cc)))
        ]

    remove_hit :
        (old : V)
        → find k (bucket m k) ≡ some old
        → remove m k ≡ (
          record {
            buckets = set m.buckets (index m k) (unlink k (bucket m k));
            size = m.size -ℤ pos 1;
          },
          true,
        )
    unfolding remove
    remove_hit old e = rw (e, remove)

    remove_miss : find k (bucket m k) ≡ none → remove m k ≡ (m, false)
    unfolding remove
    remove_miss e = rw (e, remove)

    once : count k (bucket m k) ≤ 1
    once = let p = valid.placed k (index m k) in ground arith

    -- `remove` keeps the table valid, and reports whether the key was there.
    pub remove-IsHashed : IsHashed (remove m k).0 × ((remove m k).1 ≡ contains m k)
    unfolding contains get
    remove-IsHashed =
        let c = bucket m k in
        elim (Option-cases (find k c)) [
          | inl e ↦ rw (remove_miss e) (valid, rw (e, contains))
          | inr (old, e) ↦ rw (remove_hit old e) (
            set-IsHashed m valid k (unlink k c) (m.size -ℤ pos 1)
                (λ q. omega (arith, count-unlink-le k q c, valid.placed q (index m k)))
                (counted_less m valid k (unlink k c) (length-unlink k c (λ n. cc))),
            rw (e, contains),
          )
        ]

    -- `get` after `remove`: nothing at the key, and every other key as it was.
    pub get-remove : (q : K) → get (remove m k).0 q ≡ (if key.equal k q then none else get m q)
    get-remove q =
        let c = bucket m k in
        elim (Option-cases (find k c)) [
          | inl e ↦ rw (remove_miss e) (get_absent q e)
          | inr (old, e) ↦
              rw (remove_hit old e)
                (get-set m valid k (unlink k c) (m.size -ℤ pos 1) q none (find-unlink k q c once))
        ]
      where
        get_absent :
            (q : K)
            → find k (bucket m k) ≡ none
            → get m q ≡ (if key.equal k q then none else get m q)
        get_absent q e = elim (Bool-cases (key.equal k q)) [
          | inr s ↦ rw s
          | inl s ↦ rw s (ap (get m) (sym ((key.equal_iff k q).0 s)) ∙ (unfold get in e))
        ]

  -- `forEach` meets an entry for a key exactly if `get` finds one, and then once.
  pub count-for_each :
      (m : HashMap K V) (q : K)
      → IsHashed m
      → count q (for_each m) ≡ elim (get m q) [ some _ ↦ 1 | none ↦ 0 ]
  unfolding for_each get
  count-for_each m q valid =
      count-chain_calls q m.buckets (index m q) (λ j n. ground (arith, valid.placed q j))
      ∙ elim (Option-cases (find q (bucket m q))) [
        | inl e ↦ rw e (count-eq-zero q (bucket m q) e)
        | inr (v, e) ↦
            rw e (ground (arith, find-eq-none q (bucket m q), valid.placed q (index m q)))
      ]
