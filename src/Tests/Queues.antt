-- ===== src/Tests/Queues.antt =====
-- The priority queue and the stack.
use mathlib.Core.List.{Perm}
use apgitproj.Base.{ℕ, ◌<◌, ◌≡◌, pos, some, [], ◌∷◌, arith, length}
use apgitproj.PriorityQueue.{Entry, PriorityQueue, enqueue, dequeue}
use apgitproj.PriorityQueue.Methods
use apgitproj.PriorityQueue.Methods.{enqueue-IsValid, Dequeued, dequeue-Dequeued}
use apgitproj.Stack.{Stack}

abbrev no_query : Entry ℕ
no_query = record { priority = pos 0; value = 0 }

abbrev idle : PriorityQueue ℕ
idle = record { items = []; capacity = 1 }

idle-IsValid : Methods.IsValid no_query idle
idle-IsValid = record {
  heap = λ c p h. absurd (omega arith);
  fits = omega arith;
  grows = omega arith;
}

-- A user's query, then an administrator's.
abbrev user : PriorityQueue ℕ
user = enqueue no_query idle 7 (pos 1)

abbrev admin : PriorityQueue ℕ
admin = enqueue no_query user 9 (pos 0)

enqueue-IsValid_example :
    Methods.IsValid no_query admin
    × Perm admin.items (record { priority = pos 0; value = 9 } ∷ user.items)
enqueue-IsValid_example =
    enqueue-IsValid no_query user 9 (pos 0) (enqueue-IsValid no_query idle 7 (pos 1) idle-IsValid).0

user_items : 0 < length user.items
unfolding enqueue apgitproj.PriorityQueue.sift_up
user_items = omega arith

dequeue-Dequeued_example :
    (r : ℕ × PriorityQueue ℕ) × (dequeue no_query user ≡ some r) × Dequeued no_query user r
dequeue-Dequeued_example =
    dequeue-Dequeued no_query user (enqueue-IsValid no_query idle 7 (pos 1) idle-IsValid).0
      user_items

abbrev full : Stack ℕ
full = record { items = 5 ∷ []; capacity = 1 }
