-- ===== src/Log/Pool/Invariant.antt =====
-- log_system/logs_code/ThreadPool.hpp: the invariant of the pool, and what each call does when it
-- succeeds.
use asyn_log_system_cloud_st.Base.{
  ℕ, ◌≢◌, ◌+◌, ◌≤◌, ◌<◌, ◌≡◌, ◌∙◌, true, false, inl, inr, ◌⊎◌, List, [], ◌∷◌, ◌++◌, length, arith,
  if◌then◌else◌, ◌==◌,
}
use asyn_log_system_cloud_st.Log.Pool.{
  Slot, held, idle, returned, running, ThreadPool, ok, enqueue, try_enqueue, worker_section,
}
use asyn_log_system_cloud_st.Log.Pool.Steps.{Run}

-- How often a task stands in a list.
abbrev pub occurrences : ℕ → List ℕ → ℕ
occurrences a [] = 0
occurrences a (x ∷ xs) = (if x == a then 1 else 0) + occurrences a xs

pub occurrences-append :
    (a : ℕ) (xs ys : List ℕ) → occurrences a (xs ++ ys) ≡ occurrences a xs + occurrences a ys
occurrences-append a [] ys = omega arith
occurrences-append a (x ∷ xs) ys = omega (arith, occurrences-append a xs ys)

-- The tasks that are being run.
abbrev pub in_hand : List Slot → List ℕ
in_hand [] = []
in_hand (s ∷ ws) = held s ++ in_hand ws

pub occurrences-in_hand :
    (a : ℕ) (s : Slot) (xs ys : List Slot)
    → occurrences a (in_hand (xs ++ s ∷ ys))
      ≡ occurrences a (held s) + (occurrences a (in_hand xs) + occurrences a (in_hand ys))
occurrences-in_hand a s [] ys = occurrences-append a (held s) (in_hand ys) ∙ omega arith
occurrences-in_hand a s (x ∷ xs) ys = omega (
  arith,
  occurrences-append a (held x) (in_hand (xs ++ s ∷ ys)),
  occurrences-append a (held x) (in_hand xs),
  occurrences-in_hand a s xs ys,
)

abbrev pub HasReturned : List Slot → Type 0
HasReturned [] = ⊥
HasReturned (s ∷ ws) = (s ≡ returned) ⊎ HasReturned ws

-- The queue holds at most its maximum; the tasks taken, then those queued, are those accepted, in
-- order; each task taken is being run or has been run, once; there is a worker, and one returns
-- only when a shutdown was requested and the queue is empty.
pub record Inv (r : Run) : Type 0 where
  pub bounded : length r.pool.tasks ≤ r.pool.max_pending_tasks
  pub in_order : r.pool.started ++ r.pool.tasks ≡ r.accepted
  pub once :
      (a : ℕ)
      → occurrences a r.pool.executed + occurrences a (in_hand r.pool.workers)
        ≡ occurrences a r.pool.started
  pub staffed : 0 < length r.pool.workers
  pub drained : HasReturned r.pool.workers → (r.pool.stopping ≡ true) × (r.pool.tasks ≡ [])

-- Either the one in the middle has returned, or one of the others, whoever is in the middle.
pub HasReturned-cases :
    (s t : Slot) (xs ys : List Slot)
    → HasReturned (xs ++ s ∷ ys)
    → (s ≡ returned) ⊎ HasReturned (xs ++ t ∷ ys)
HasReturned-cases s t [] ys (inl e) = inl e
HasReturned-cases s t [] ys (inr h) = inr (inr h)
HasReturned-cases s t (x ∷ xs) ys (inl e) = inr (inl e)
HasReturned-cases s t (x ∷ xs) ys (inr h) = elim (HasReturned-cases s t xs ys h) [
  | inl e ↦ inl e
  | inr k ↦ inr (inr k)
]

pub HasReturned-replace :
    (s t : Slot) (xs ys : List Slot)
    → s ≢ returned
    → HasReturned (xs ++ s ∷ ys)
    → HasReturned (xs ++ t ∷ ys)
HasReturned-replace s t xs ys n h = elim (HasReturned-cases s t xs ys h) [
  | inl e ↦ absurd (n e)
  | inr k ↦ k
]

pub enqueue-ok :
    (p q : ThreadPool) (task : ℕ)
    → enqueue p task ≡ ok q
    → (p.stopping ≡ false)
      × (length p.tasks < p.max_pending_tasks)
      × (q ≡ record p { tasks = p.tasks ++ task ∷ [] })
unfolding enqueue
enqueue-ok p q task e = ground arith

pub try_enqueue-true :
    (p q : ThreadPool) (task : ℕ)
    → try_enqueue p task ≡ (q, true)
    → (p.stopping ≡ false)
      × (length p.tasks < p.max_pending_tasks)
      × (q ≡ record p { tasks = p.tasks ++ task ∷ [] })
unfolding try_enqueue
try_enqueue-true p q task e = ground arith

pub section_stop :
    (p : ThreadPool) → p.tasks ≡ [] → p.stopping ≡ true → worker_section p ≡ (returned, [])
unfolding worker_section
section_stop p t s = ground arith

pub section_wait :
    (p : ThreadPool) → p.tasks ≡ [] → p.stopping ≡ false → worker_section p ≡ (idle, [])
unfolding worker_section
section_wait p t s = ground arith

pub section_take :
    (p : ThreadPool) (task : ℕ) (rest : List ℕ)
    → p.tasks ≡ task ∷ rest
    → worker_section p ≡ (running task, rest)
unfolding worker_section
section_take p task rest t = ground arith
