-- ===== src/Queue/Accept.antt =====
-- `AcceptQueue` of crates/ssh3-core/src/queue.rs: an unbounded first-in first-out queue.
use ssh.Base.{List, [], ◌∷◌, ◌++◌, Option, none, some}

pub record AcceptQueue {ℓ} (A : Type ℓ) : Type ℓ where
  pub queue : List A

module _ {ℓ} {A : Type ℓ} where
  -- `VecDeque::pop_front`
  abbrev pub pop_front : List A → Option A × List A
  pop_front [] = (none, [])
  pop_front (x ∷ xs) = (some x, xs)

  unfoldable pub new : AcceptQueue A
  new = record { queue = [] }

  unfoldable pub add : AcceptQueue A → A → AcceptQueue A
  add q item = record { queue = q.queue ++ (item ∷ []) }

  unfoldable pub next : AcceptQueue A → Option A × AcceptQueue A
  next q = let (item, rest) = pop_front q.queue in (item, record { queue = rest })

  -- One round: with no item the task waits.
  unfoldable pub wait_next : AcceptQueue A → Option (A × AcceptQueue A)
  unfolding next
  wait_next q = let (item, q') = next q in elim item [ none ↦ none | some a ↦ some (a, q') ]
