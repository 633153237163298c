-- ===== src/Graph/Link.antt =====
-- Graph.h: one root put below another, and the ranks.
use apgitproj.Base.{
  ℕ, ◌+◌, ◌≤◌, ◌<◌, ◌≡◌, ◌≢◌, refl, ap, ◌∙◌, sym, subst, true, false, Bool-cases, inl, inr, List,
  length, length-set, set, get_or, get_or-set, ◌==◌, ==_iff, if◌then◌else◌, arith,
}
use apgitproj.Graph.{UnionFind, parent_of, link}
use apgitproj.Graph.Find.{Root, here, above, IsForest}

-- `py` is put below `px`, both roots.
module _ (ps : List ℕ) (px py : ℕ) (inside : py < length ps) (top_x : parent_of ps px ≡ px)
    (top_y : parent_of ps py ≡ py) (apart : px ≢ py) where
  abbrev pub joined : List ℕ
  joined = set ps py px

  pub parent-joined : (z : ℕ) → parent_of joined z ≡ (if py == z then px else parent_of ps z)
  parent-joined z = get_or-set ps py z px 0 inside

  pub joined_at : (z : ℕ) → py ≡ z → parent_of joined z ≡ px
  joined_at z e = let test : (py == z) ≡ true = (==_iff py z).1 e in parent-joined z ∙ rw test refl

  pub joined_off : (z : ℕ) → (py == z) ≡ false → parent_of joined z ≡ parent_of ps z
  joined_off z e = parent-joined z ∙ rw e refl

  pub joined-Root : Root joined px px
  joined-Root = let off : (py == px) ≡ false = ground arith in here px (joined_off px off ∙ top_x)

  -- What was below `py` is below `px`, and every other node keeps its root.
  pub Root-joined : (z r : ℕ) → Root ps z r → Root joined z (if r == py then px else r)
  Root-joined z r (here _ e) = elim (Bool-cases (py == z)) [
    | inl s ↦
        let same = (==_iff py z).0 s in
        let back : (z == py) ≡ true = (==_iff z py).1 (sym same) in
        let n : parent_of joined z ≢ z = λ q. apart (sym (joined_at z same) ∙ q ∙ sym same) in
        rw back (above z px n (subst (λ p. Root joined p px) (sym (joined_at z same)) joined-Root))
    | inr s ↦ let back : (z == py) ≡ false = ground arith in rw back (here z (joined_off z s ∙ e))
  ]
  Root-joined z r (above _ _ n t) =
      let off : (py == z) ≡ false = elim (Bool-cases (py == z)) [
        | inl s ↦ absurd (n (subst (λ p. parent_of ps p ≡ p) ((==_iff py z).0 s) top_y))
        | inr s ↦ s
      ] in
      let up = Root-joined (parent_of ps z) r t in
      above z (if r == py then px else r) (λ q. n (sym (joined_off z off) ∙ q))
        (subst (λ p. Root joined p (if r == py then px else r)) (sym (joined_off z off)) up)

-- The rank of a node, as stored.
abbrev pub rank_of : UnionFind → ℕ → ℕ
rank_of uf z = get_or uf.ranks z 0

-- A union-find of `n` nodes, with ranks below a bound.
pub record IsValid (uf : UnionFind) (bound : ℕ) : Type 0 where
  pub forest : IsForest uf.parents (rank_of uf)
  pub ranked : length uf.ranks ≡ length uf.parents
  pub low : (z : ℕ) → z < length uf.parents → rank_of uf z < bound

-- The better-ranked of two roots stays one.
module _ (uf : UnionFind) (px py bound : ℕ) (valid : IsValid uf bound)
    (in_x : px < length uf.parents) (in_y : py < length uf.parents)
    (top_x : parent_of uf.parents px ≡ px) (top_y : parent_of uf.parents py ≡ py) (apart : px ≢ py)
    (higher : rank_of uf py ≤ rank_of uf px) where
  pub rank-link :
      (z : ℕ)
      → rank_of (link uf px py) z ≡ (
          if rank_of uf px == rank_of uf py
          then (if px == z then rank_of uf px + 1 else rank_of uf z)
          else rank_of uf z)
  unfolding link
  rank-link z = elim (Bool-cases (rank_of uf px == rank_of uf py)) [
    | inl e ↦
        rw e (get_or-set uf.ranks px z (rank_of uf px + 1) 0 (omega (arith, valid.ranked, in_x)))
    | inr e ↦ rw e refl
  ]

  pub parent-link :
      (z : ℕ)
      → parent_of (link uf px py).parents z ≡ (if py == z then px else parent_of uf.parents z)
  unfolding link
  parent-link z = get_or-set uf.parents py z px 0 in_y

  pub size-link : length (link uf px py).parents ≡ length uf.parents
  unfolding link
  size-link = length-set uf.parents py px

  pub ranked-link : length (link uf px py).ranks ≡ length (link uf px py).parents
  unfolding link
  ranked-link = elim (Bool-cases (rank_of uf px == rank_of uf py)) [
    | inl e ↦ rw e (
        omega (
          arith,
          length-set uf.ranks px (rank_of uf px + 1),
          length-set uf.parents py px,
          valid.ranked,
        ))
    | inr e ↦ rw e (omega (arith, length-set uf.parents py px, valid.ranked))
  ]

  pub rising-link :
      (z : ℕ)
      → z < length uf.parents
      → parent_of (link uf px py).parents z ≢ z
      → rank_of (link uf px py) z < rank_of (link uf px py) (parent_of (link uf px py).parents z)
  rising-link z h n = elim (Bool-cases (py == z)) [
    | inl e ↦
        let same = (==_iff py z).0 e in
        let up : parent_of (link uf px py).parents z ≡ px = parent-link z ∙ rw e refl in
        subst (λ p. rank_of (link uf px py) z < rank_of (link uf px py) p) (sym up)
          (subst (λ c. rank_of (link uf px py) c < rank_of (link uf px py) px) same
            (ground (arith, rank-link py, rank-link px, higher)))
    | inr e ↦
        let up : parent_of (link uf px py).parents z ≡ parent_of uf.parents z =
          parent-link z ∙ rw e refl in
        let low = valid.forest.rising z h (λ q. n (up ∙ q)) in
        let off : px ≢ z = λ q. n (up ∙ subst (λ p. parent_of uf.parents p ≡ p) q top_x) in
        subst (λ p. rank_of (link uf px py) z < rank_of (link uf px py) p) (sym up)
          (ground (arith, rank-link z, rank-link (parent_of uf.parents z), low, ap (rank_of uf)))
  ]

  -- Joining two roots leaves a valid union-find; the greatest rank rises by one at most.
  pub link-IsValid : IsValid (link uf px py) (bound + 1)
  link-IsValid = record {
    forest = record {
      closed = λ z h. ground (arith, size-link, parent-link z, in_x, valid.forest.closed z);
      rising = λ z h n. rising-link z (omega (arith, size-link, h)) n;
    };
    ranked = ranked-link;
    low = λ z h. ground (arith, rank-link z, size-link, valid.low z, valid.low px in_x);
  }

  pub Root-link :
      (z r : ℕ) → Root uf.parents z r → Root (link uf px py).parents z (if r == py then px else r)
  unfolding link
  Root-link z r t = Root-joined uf.parents px py in_y top_x top_y apart z r t
