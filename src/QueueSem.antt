-- ===== src/QueueSem.antt =====
-- struct_queue_sem/inc/queue_sem.h and req_queue_sem/src/req_queue_sem.c: the bounded queue between the server and a
-- thread of the database. One thread pushes and one pops, and the semaphores let neither touch the entry of the
-- other, so that each operation is one step; a failing semaphore call stops the process and is not modelled.
pub mod Entries
pub mod Fifo
use smtp_course_work.Base.{
  ℕ, zero, suc, ◌+◌, ◌-◌, Bool, true, false, Option, none, some, List, [], ◌∷◌, Outcome, done,
  abort, get_elem?, set, ltb, ◌==◌, if◌then◌else◌,
}
use smtp_course_work.Kernel.{Call, returns, waits, aborts}

-- `calloc(size, ...)`
unfoldable pub null_entries {ℓ} : {A : Type ℓ} → ℕ → List (Option A)
null_entries zero = []
null_entries (suc n) = none ∷ null_entries n

-- `q[i]`; `none` is NULL.
unfoldable pub entry_at {ℓ} : {A : Type ℓ} → List (Option A) → ℕ → Option A
entry_at q i = elim (get_elem? q i) [ none ↦ none | some e ↦ e ]

-- `if (++i == size) i = 0;`
unfoldable pub advance : ℕ → ℕ → ℕ
advance size i = if (i + 1) == size then 0 else i + 1

module _ (A : Type 0) where
  -- `struct queue_sem`; a semaphore is its value.
  pub record QueueSem : Type 0 where
    pub full : ℕ
    pub empty : ℕ
    pub head : ℕ
    pub tail : ℕ
    pub size : ℕ
    pub q : List (Option A)

  -- `got` tells whether the two semaphores and the array are made; `none` is -1.
  unfoldable pub init_queue_sem : Bool → ℕ → Outcome (Option QueueSem)
  unfolding null_entries
  init_queue_sem got zero = abort
  init_queue_sem got (suc n) = done (
      if got
      then some (record {
        full = suc n;
        empty = 0;
        head = 0;
        tail = 0;
        size = suc n;
        q = null_entries (suc n);
      })
      else none)

  -- A push to a full queue waits; the assertion is that the entry is NULL.
  unfoldable pub queue_sem_push : QueueSem → Option A → Call QueueSem
  unfolding entry_at advance
  queue_sem_push queue entry =
      if queue.full == 0 then waits else elim (entry_at queue.q queue.head) [
        | some e ↦ aborts
        | none ↦ returns (record queue {
          full = queue.full - 1;
          q = set queue.q queue.head entry;
          head = advance queue.size queue.head;
          empty = queue.empty + 1;
        })
      ]

  -- A pop from an empty queue waits.
  unfoldable pub queue_sem_pop : QueueSem → Call (Option A × QueueSem)
  unfolding entry_at advance
  queue_sem_pop queue =
      if queue.empty == 0
      then waits
      else returns (
        entry_at queue.q queue.tail,
        record queue {
          empty = queue.empty - 1;
          q = set queue.q queue.tail none;
          tail = advance queue.size queue.tail;
          full = queue.full + 1;
        },
      )
