-- ===== src/AvlTree/Depth.antt =====
-- AVLTree.h: a tree in balance is shallow.
use apgitproj.Base.{ℕ, zero, suc, ◌+◌}

-- A lower bound on one more than the number of keys, by the height.
unfoldable pub fib : ℕ → ℕ
fib zero = 1
fib (suc zero) = 2
fib (suc (suc n)) = fib (suc n) + fib n
