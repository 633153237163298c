-- ===== src/BufferPool/Frames.antt =====
-- BufferPool.h: the frames in the order of use and on the stack of free frames.
use apgitproj.Base.{
  ℕ, zero, suc, ◌+◌, ◌≤◌, ◌<◌, ◌≡◌, refl, ap, ◌⊎◌, inl, inr, ◌≢◌, none, some, List, [], ◌∷◌, ◌++◌,
  arith, get_or, take, length, set, get_or-set, ◌==◌, if◌then◌else◌,
}
use apgitproj.DoublyLinkedList.{Pointer, or_else}
use apgitproj.DoublyLinkedList.Segments.{Cells}

-- A write at an index that the list has.
module _ {A : Type 0} (xs : List A) (i : ℕ) (v d : A) (h : i < length xs) where
  pub get_or-set_same : get_or (set xs i v) i d ≡ v
  get_or-set_same = ground (arith, get_or-set xs i i v d h)

  pub get_or-set_other : (j : ℕ) → i ≢ j → get_or (set xs i v) j d ≡ get_or xs j d
  get_or-set_other j n = ground (arith, get_or-set xs i j v d h)

pub same_or_not : (a b : ℕ) → (a ≡ b) ⊎ (a ≢ b)
same_or_not a b = ground arith

-- How often a frame is in the list, and on the stack.
unfoldable pub frames : ℕ → Cells ℕ → ℕ
frames f [] = 0
frames f (c ∷ cs) = (if c.1 == f then 1 else 0) + frames f cs

unfoldable pub copies : ℕ → List ℕ → ℕ
copies f [] = 0
copies f (g ∷ gs) = (if g == f then 1 else 0) + copies f gs

-- The node of a frame.
unfoldable pub address : ℕ → Cells ℕ → Pointer
address f [] = none
address f (c ∷ cs) = if c.1 == f then some c.0 else address f cs

pub frames-append : (f : ℕ) (xs ys : Cells ℕ) → frames f (xs ++ ys) ≡ frames f xs + frames f ys
unfolding frames
frames-append f [] ys = omega arith
frames-append f (c ∷ xs) ys = omega (arith, frames-append f xs ys)

pub address-append :
    (f : ℕ) (xs ys : Cells ℕ) → address f (xs ++ ys) ≡ or_else (address f xs) (address f ys)
unfolding address
address-append f [] ys = refl
address-append f (c ∷ xs) ys = ground (arith, address-append f xs ys)

pub address-none : (f : ℕ) (cs : Cells ℕ) → frames f cs ≡ 0 → address f cs ≡ none
unfolding frames address
address-none f [] h = refl
address-none f (c ∷ cs) h = ground (arith, address-none f cs)

-- A cell may be moved to the front.
pub frames-moved :
    (xs ys : Cells ℕ) (c : ℕ × ℕ) (g : ℕ) → frames g (c ∷ xs ++ ys) ≡ frames g (xs ++ c ∷ ys)
unfolding frames
frames-moved xs ys c g = omega (arith, frames-append g xs ys, frames-append g xs (c ∷ ys))

pub address-moved :
    (xs ys : Cells ℕ) (c : ℕ × ℕ) (g : ℕ)
    → frames c.1 (xs ++ c ∷ ys) ≤ 1
    → address g (c ∷ xs ++ ys) ≡ address g (xs ++ c ∷ ys)
unfolding frames address
address-moved xs ys c g h = ground (
  arith,
  frames-append c.1 xs (c ∷ ys),
  address-none c.1 xs,
  address-append g xs ys,
  address-append g xs (c ∷ ys),
)

-- A frame of the list, with the cells before and after it.
pub record Place (f : ℕ) (cs : Cells ℕ) : Type 0 where
  pub node : ℕ
  pub before : Cells ℕ
  pub behind : Cells ℕ
  pub parts : cs ≡ before ++ (node, f) ∷ behind
  pub at : address f cs ≡ some node

pub place : (f : ℕ) (cs : Cells ℕ) → 1 ≤ frames f cs → Place f cs
unfolding frames address
place f [] h = absurd (omega arith)
place f ((p, g) ∷ cs) h = elim (same_or_not g f) [
  | inl e ↦ record {
    node = p;
    before = [];
    behind = cs;
    parts = ap (λ q. (p, q) ∷ cs) e;
    at = ground arith;
  }
  | inr n ↦
      let r = place f cs (ground arith) in
      record {
        node = r.node;
        before = (p, g) ∷ r.before;
        behind = r.behind;
        parts = ap (λ zs. (p, g) ∷ zs) r.parts;
        at = ground (arith, r.at);
      }
]

-- The cells but the last, and the last.
pub snoc_cases : (cs : Cells ℕ) → (cs ≡ []) ⊎ ((xs : Cells ℕ) × (c : ℕ × ℕ) × (cs ≡ xs ++ c ∷ []))
snoc_cases [] = inl refl
snoc_cases (c ∷ cs) = elim (snoc_cases cs) [
  | inl e ↦ inr ([], c, ap (λ zs. c ∷ zs) e)
  | inr (xs, d, e) ↦ inr (c ∷ xs, d, ap (λ zs. c ∷ zs) e)
]

-- The top of the stack and the rest.
pub copies-take :
    (f n : ℕ) (gs : List ℕ)
    → n < length gs
    → copies f (take (suc n) gs) ≡ copies f (take n gs) + (if get_or gs n 0 == f then 1 else 0)
unfolding copies
copies-take f n [] h = absurd (omega arith)
copies-take f zero (g ∷ gs) h = omega arith
copies-take f (suc n) (g ∷ gs) h = omega (arith, copies-take f n gs)
