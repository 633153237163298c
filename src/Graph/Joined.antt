-- ===== src/Graph/Joined.antt =====
-- Graph.h: what the edges chosen by `computeMST` join.
use mathlib.Core.List.{Memᴰ}
use mathlib.Core.List.Memᴰ.{head, tail}
use apgitproj.Base.{ℕ, suc, ◌≤◌, ◌≡◌, ◌≢◌, refl, sym, ap, ◌∙◌, subst, List, [], ◌∷◌, length, arith}
use apgitproj.Graph.{Edge, parent_of}
use apgitproj.Graph.Find.{Root, here, above}

-- Two nodes are joined by edges of which `P` holds.
pub data Joined (P : Edge → Type 0) : ℕ → ℕ → Type 0 where
  same : (x : ℕ) → Joined P x x
  forth : (x z : ℕ) (e : Edge) → P e → x ≡ e.u → Joined P e.v z → Joined P x z
  back : (x z : ℕ) (e : Edge) → P e → x ≡ e.v → Joined P e.u z → Joined P x z

module _ {P : Edge → Type 0} where
  pub Joined-trans : (x y z : ℕ) → Joined P x y → Joined P y z → Joined P x z
  Joined-trans x y z (same _) t = t
  Joined-trans x y z (forth _ _ e p q s) t = forth x z e p q (Joined-trans e.v y z s t)
  Joined-trans x y z (back _ _ e p q s) t = back x z e p q (Joined-trans e.u y z s t)

  pub Joined-edge : (e : Edge) → P e → Joined P e.u e.v
  Joined-edge e p = forth e.u e.v e p refl (same e.v)

  pub Joined-edge_back : (e : Edge) → P e → Joined P e.v e.u
  Joined-edge_back e p = back e.v e.u e p refl (same e.u)

  pub Joined-sym : (x y : ℕ) → Joined P x y → Joined P y x
  Joined-sym x y (same _) = same x
  Joined-sym x y (forth _ _ e p q s) =
      Joined-trans y e.v x (Joined-sym e.v y s)
        (back e.v x e p refl (subst (λ z. Joined P e.u z) (sym q) (same e.u)))
  Joined-sym x y (back _ _ e p q s) =
      Joined-trans y e.u x (Joined-sym e.u y s)
        (forth e.u x e p refl (subst (λ z. Joined P e.v z) (sym q) (same e.v)))

pub Joined-map :
    {P Q : Edge → Type 0} → ((e : Edge) → P e → Q e) → (x y : ℕ) → Joined P x y → Joined Q x y
Joined-map f x y (same _) = same x
Joined-map f x y (forth _ _ e p q s) = forth x y e (f e p) q (Joined-map f e.v y s)
Joined-map f x y (back _ _ e p q s) = back x y e (f e p) q (Joined-map f e.u y s)

-- A node has one root.
pub Root-unique : (ps : List ℕ) (z r s : ℕ) → Root ps z r → Root ps z s → r ≡ s
Root-unique ps z r s (here _ e) (here _ d) = refl
Root-unique ps z r s (here _ e) (above _ _ n t) = absurd (n e)
Root-unique ps z r s (above _ _ n t) (here _ e) = absurd (n e)
Root-unique ps z r s (above _ _ n t) (above _ _ m u) = Root-unique ps (parent_of ps z) r s t u

-- Two nodes with one root.
abbrev pub HaveOneRoot : List ℕ → ℕ → ℕ → Type 0
HaveOneRoot ps x y = (r : ℕ) × Root ps x r × Root ps y r

-- Nodes joined by edges whose ends have one root have one root.
pub Root-Joined :
    (ps : List ℕ) (P : Edge → Type 0)
    → ((e : Edge) → P e → HaveOneRoot ps e.u e.v)
    → (x y r : ℕ) → Joined P x y
    → Root ps y r
    → Root ps x r
Root-Joined ps P linked x y r (same _) t = t
Root-Joined ps P linked x y r (forth _ _ e p q s) t =
    let l = linked e p in
    let one = Root-unique ps e.v l.0 r l.2 (Root-Joined ps P linked e.v y r s t) in
    subst (λ z. Root ps z r) (sym q) (subst (Root ps e.u) one l.1)
Root-Joined ps P linked x y r (back _ _ e p q s) t =
    let l = linked e p in
    let one = Root-unique ps e.u l.0 r l.1 (Root-Joined ps P linked e.u y r s t) in
    subst (λ z. Root ps z r) (sym q) (subst (Root ps e.v) one l.2)

-- An element taken from a list.
pub others :
    {A : Type 0} (a : A) (xs : List A)
    → Memᴰ a xs
    → (ys : List A) × (length xs ≡ suc (length ys)) × ((b : A) → Memᴰ b xs → b ≢ a → Memᴰ b ys)
others a [] m = elim m [ ]
others {A = A} a (x ∷ xs) (head e) = (xs, refl, rest)
  where
    rest : (b : A) → Memᴰ b (x ∷ xs) → b ≢ a → Memᴰ b xs
    rest b (head q) n = absurd (n (q ∙ sym e))
    rest b (tail m) n = m
others {A = A} a (x ∷ xs) (tail m) = let r = others a xs m in (x ∷ r.0, ap suc r.1, kept r.0 r.2)
  where
    kept :
        (ys : List A)
        → ((b : A) → Memᴰ b xs → b ≢ a → Memᴰ b ys)
        → (b : A) → Memᴰ b (x ∷ xs)
        → b ≢ a
        → Memᴰ b (x ∷ ys)
    kept ys h b (head q) n = head q
    kept ys h b (tail m) n = tail (h b m n)

-- Two members of a list of one element are the same.
pub only_one : {A : Type 0} (xs : List A) (a b : A) → length xs ≤ 1 → Memᴰ a xs → Memᴰ b xs → a ≡ b
only_one [] a b h m k = elim m [ ]
only_one (x ∷ []) a b h (head e) (head d) = e ∙ sym d
only_one (x ∷ []) a b h (tail m) k = elim m [ ]
only_one (x ∷ []) a b h m (tail k) = elim k [ ]
only_one (x ∷ y ∷ xs) a b h m k = absurd (omega arith)
