-- ===== src/Executor/Command/Queue.antt =====
-- Executor.cpp: runQueue runs every task, those of the least priority number first.
use mathlib.Core.List.{Perm, Mem}
use mathlib.Core.List.Perm
use apgitproj.Base.{◌≡◌, List, [], ◌∷◌, map, ◌≤ℤ◌}
use apgitproj.Doubles.{Doubles}
use apgitproj.PriorityQueue.{Entry, PriorityQueue}
use apgitproj.Executor.Command.{QueryTask, Executor}

-- Entries in the order of their priorities.
pub data InOrder : List (Entry QueryTask) → Type 0 where
  nil : InOrder []
  cons :
      {x : Entry QueryTask} {xs : List (Entry QueryTask)}
      → ((t : Entry QueryTask) → Mem t xs → x.priority ≤ℤ t.priority)
      → InOrder xs
      → InOrder (x ∷ xs)

-- What a run of the queue did: the tasks are those of all entries, in their order.
pub record Ran (items : List (Entry QueryTask)) (tasks : List QueryTask) : Type 0 where
  pub entries : List (Entry QueryTask)
  pub values : map (λ (x : Entry QueryTask). x.value) entries ≡ tasks
  pub same : Perm entries items
  pub sorted : InOrder entries
