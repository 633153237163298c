-- ===== src/Graph/Start.antt =====
-- Graph.h: the union-find that the constructor builds.
use apgitproj.Base.{
  ℕ, zero, suc, ◌+◌, ◌<◌, ◌≡◌, refl, sym, ap, ◌∙◌, length, length-replicate, get_or,
  get_or-replicate, arith,
}
use apgitproj.Graph.{counting, new_union_find}
use apgitproj.Graph.Find.{Root, here}
use apgitproj.Graph.Link.{IsValid}

pub length-counting : (i n : ℕ) → length (counting i n) ≡ n
unfolding counting
length-counting i zero = refl
length-counting i (suc n) = ap suc (length-counting (suc i) n)

get_or-counting : (i n j : ℕ) → j < n → get_or (counting i n) j 0 ≡ i + j
unfolding counting
get_or-counting i zero j h = absurd (omega arith)
get_or-counting i (suc n) zero h = omega arith
get_or-counting i (suc n) (suc j) h = omega (arith, get_or-counting (suc i) n j)

pub length-new_union_find : (n : ℕ) → length (new_union_find n).parents ≡ n
unfolding new_union_find
length-new_union_find n = length-counting 0 n

-- A new union-find of any number of nodes is valid, with ranks below 1, and each node is its own
-- root.
pub new_union_find-IsValid :
    (n : ℕ) → IsValid (new_union_find n) 1 × ((x : ℕ) → x < n → Root (new_union_find n).parents x x)
unfolding new_union_find
new_union_find-IsValid n =
    let size = length-counting 0 n in
    (
      record {
        forest = record {
          closed = λ x h. omega (arith, size, h, get_or-counting 0 n x);
          rising =
              λ x h m. absurd (m (get_or-counting 0 n x (omega (arith, size, h)) ∙ omega arith));
        };
        ranked = length-replicate {A = ℕ} n 0 ∙ sym size;
        low = λ z h. omega (arith, get_or-replicate {A = ℕ} n z 0);
      },
      λ x h. here x (get_or-counting 0 n x h ∙ omega arith),
    )
