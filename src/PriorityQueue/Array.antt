-- ===== src/PriorityQueue/Array.antt =====
-- PriorityQueue.h: `heap_` as an array: what a swap does to it.
use mathlib.Core.Logic.{∥∥₁_elim}
use native.Mathlib.Nat.{ℕ_set}
use mathlib.Core.List.{Perm, Permᴰ, perm_middle}
use mathlib.Core.List.Perm
use apgitproj.Base.{
  ℕ, zero, suc, ◌<◌, ◌≡◌, refl, ◌∙◌, ap, List, [], ◌∷◌, ◌++◌, append-nil, length, set, get_or, take,
  get_or-set, length-set, arith, ◌==◌, if◌then◌else◌,
}
use apgitproj.PriorityQueue.{Entry, swap}

module _ {A : Type 0} where
  -- A write exchanges the old element for the new one.
  pub set-perm :
      (a : List A) (i : ℕ) (v d : A) → i < length a → Perm (get_or a i d ∷ set a i v) (v ∷ a)
  set-perm [] i v d h = absurd (omega arith)
  set-perm (x ∷ a) zero v d h = Perm.swap v x a
  set-perm (x ∷ a) (suc i) v d h =
      Perm.trans (Perm.swap x (get_or a i d) (set a i v))
        (Perm.trans (Perm.cons x (set-perm a i v d (omega arith))) (Perm.swap v x a))

  -- Two elements change places.
  pub exchange-perm :
      (a : List A) (i j : ℕ) (d : A)
      → i < length a
      → j < length a
      → Perm (set (set a i (get_or a j d)) j (get_or a i d)) a
  exchange-perm a i j d hi hj =
      let x = get_or a i d in
      let y = get_or a j d in
      let kept : get_or (set a i y) j d ≡ y = get_or-set a i j y d hi ∙ ground arith in
      let back : Perm (y ∷ set (set a i y) j x) (x ∷ set a i y) =
        rw kept at (set-perm (set a i y) j x d (rw (length-set a i y) hj)) in
      Perm.cons_inv (Perm.trans back (set-perm a i y d hi))

  Permᴰ-length : {a b : List A} → Permᴰ a b → length a ≡ length b
  Permᴰ-length Permᴰ.nil = refl
  Permᴰ-length (Permᴰ.cons x p) = ap suc (Permᴰ-length p)
  Permᴰ-length (Permᴰ.swap x y) = refl
  Permᴰ-length (Permᴰ.trans p q) = Permᴰ-length p ∙ Permᴰ-length q

  pub Perm-length : {old new : List A} → Perm old new → length old ≡ length new
  Perm-length same = ∥∥₁_elim same (ℕ_set _ _) Permᴰ-length

  pub snoc-perm : (a : List A) (x : A) → Perm (a ++ x ∷ []) (x ∷ a)
  snoc-perm a x = rw (append-nil a) at (perm_middle {a = x} a [])

  pub get_or-append :
      (a b : List A) (i : ℕ) (d : A) → i < length a → get_or (a ++ b) i d ≡ get_or a i d
  get_or-append [] b i d h = absurd (omega arith)
  get_or-append (x ∷ a) b zero d h = refl
  get_or-append (x ∷ a) b (suc i) d h = get_or-append a b i d (omega arith)

  pub get_or-take :
      (n : ℕ) (a : List A) (i : ℕ) (d : A) → i < n → get_or (take n a) i d ≡ get_or a i d
  get_or-take zero a i d h = absurd (omega arith)
  get_or-take (suc n) [] i d h = refl
  get_or-take (suc n) (x ∷ a) zero d h = refl
  get_or-take (suc n) (x ∷ a) (suc i) d h = get_or-take n a i d (omega arith)

  -- All but the last element, and the last.
  pub take-last :
      (n : ℕ) (a : List A) (d : A) → length a ≡ suc n → take n a ++ get_or a n d ∷ [] ≡ a
  take-last zero (x ∷ []) d h = refl
  take-last (suc n) (x ∷ a) d h = ap (◌∷◌ x) (take-last n a d (omega arith))
  take-last n a d h = absurd (omega arith)

module _ {T : Type 0} (blank : Entry T) where
  pub length-swap : (a : List (Entry T)) (i j : ℕ) → length (swap blank a i j) ≡ length a
  unfolding swap
  length-swap a i j =
      length-set (set a i (get_or a j blank)) j (get_or a i blank)
      ∙ length-set a i (get_or a j blank)

  module _ (a : List (Entry T)) (i j : ℕ) (hi : i < length a) (hj : j < length a) where
    pub get_or-swap :
        (c : ℕ)
        → get_or (swap blank a i j) c blank ≡ (
            if j == c
            then get_or a i blank
            else if i == c
            then get_or a j blank
            else get_or a c blank)
    unfolding swap
    get_or-swap c = rw (
      get_or-set (set a i (get_or a j blank)) j c (get_or a i blank) blank
          (rw (length-set a i (get_or a j blank)) hj),
      get_or-set a i c (get_or a j blank) blank hi,
    )

    pub swap-perm : Perm (swap blank a i j) a
    unfolding swap
    swap-perm = exchange-perm a i j blank hi hj
