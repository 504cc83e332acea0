-- ===== src/QueueSem/Fifo.antt =====
-- The ring is a bounded queue: first in, first out, never more than `size` entries.
use smtp_course_work.Base.{
  ℕ, zero, suc, ◌+◌, ◌-◌, ◌≤◌, ◌<◌, ◌≡◌, refl, sym, ap, ap₂, ◌∙◌, true, false, Option, none, some,
  List, [], ◌∷◌, ◌++◌, done, length, set, length-set, ltb, ◌==◌, arith, Bool-cases, inl, inr,
}
use smtp_course_work.Kernel.{returns, waits}
use smtp_course_work.QueueSem.{
  QueueSem, null_entries, entry_at, advance, init_queue_sem, queue_sem_push, queue_sem_pop,
}
use smtp_course_work.QueueSem.Entries.{
  slot_at, slot_at_ne, advance_lt, slot_at_back, tail_ne, advance-slot_at, slot_at-advance,
  entry_at-set_self, entry_at-set_ne, entries, entries-push, entries-pop, length-null_entries,
  entry_at-null_entries, length-entries,
}

module _ (A : Type 0) where
  -- The entries that wait, from the first to be popped to the last.
  unfoldable pub view : QueueSem A → List (Option A)
  view queue = entries queue.size queue.tail queue.q 0 queue.empty

  -- The semaphores count the array, the head lies behind the entries that wait, and every other entry is NULL.
  pub record IsRing (queue : QueueSem A) : Type 0 where
    pub counted : queue.full + queue.empty ≡ queue.size
    pub room : length queue.q ≡ queue.size
    pub tail_lt : queue.tail < queue.size
    pub head_at : queue.head ≡ slot_at queue.size queue.tail queue.empty
    pub cleared :
        (i : ℕ)
        → queue.empty ≤ i
        → i < queue.size
        → entry_at queue.q (slot_at queue.size queue.tail i) ≡ none

  abbrev pushed : QueueSem A → Option A → QueueSem A
  pushed queue entry = record queue {
    full = queue.full - 1;
    q = set queue.q queue.head entry;
    head = advance queue.size queue.head;
    empty = queue.empty + 1;
  }

  push_full :
      (queue : QueueSem A) (entry : Option A)
      → IsRing queue
      → queue.empty ≡ queue.size
      → queue_sem_push A queue entry ≡ waits
  unfolding queue_sem_push
  push_full queue entry v h =
      let none_left : (queue.full == 0) ≡ true = ground (arith, v.counted) in rw none_left refl

  push_done :
      (queue : QueueSem A) (entry : Option A)
      → IsRing queue
      → queue.empty < queue.size
      → queue_sem_push A queue entry ≡ returns (pushed queue entry)
  unfolding queue_sem_push
  push_done queue entry v h =
      let some_left : (queue.full == 0) ≡ false = ground (arith, v.counted) in
      let null : entry_at queue.q queue.head ≡ none =
        ap (entry_at queue.q) v.head_at ∙ v.cleared queue.empty (omega arith) h in
      rw (some_left, null) refl

  pushed-IsRing :
      (queue : QueueSem A) (entry : Option A)
      → IsRing queue
      → queue.empty < queue.size
      → IsRing (pushed queue entry)
  pushed-IsRing queue entry v h = record {
    counted = omega (arith, v.counted);
    room = length-set queue.q queue.head entry ∙ v.room;
    tail_lt = v.tail_lt;
    head_at =
        ap (advance queue.size) v.head_at
        ∙ advance-slot_at queue.size queue.tail queue.empty v.tail_lt h;
    cleared = λ i g b.
        ap (λ hd. entry_at (set queue.q hd entry) (slot_at queue.size queue.tail i)) v.head_at
        ∙ entry_at-set_ne queue.q (slot_at queue.size queue.tail queue.empty)
            (slot_at queue.size queue.tail i) entry
            (slot_at_ne queue.size queue.tail queue.empty i v.tail_lt (omega arith) b)
        ∙ v.cleared i (omega arith) b;
  }

  abbrev popped : QueueSem A → QueueSem A
  popped queue = record queue {
    empty = queue.empty - 1;
    q = set queue.q queue.tail none;
    tail = advance queue.size queue.tail;
    full = queue.full + 1;
  }

  pop_done :
      (queue : QueueSem A)
      → 0 < queue.empty
      → queue_sem_pop A queue ≡ returns (entry_at queue.q queue.tail, popped queue)
  unfolding queue_sem_pop
  pop_done queue h = let ne : (queue.empty == 0) ≡ false = ground arith in rw ne refl

  entries-first :
      (size tail n : ℕ) (q : List (Option A))
      → tail < size
      → 0 < n
      → entries size tail q 0 n ≡ entry_at q tail ∷ entries size tail q 1 (n - 1)
  unfolding entries
  entries-first size tail zero q h p = absurd (omega arith)
  entries-first size tail (suc n) q h p =
      let first : slot_at size tail 0 ≡ tail = ground arith in
      let rest : n ≡ suc n - 1 = omega arith in
      ap (λ i. entry_at q i ∷ entries size tail q 1 n) first
      ∙ ap (λ m. entry_at q tail ∷ entries size tail q 1 m) rest

  -- the slot that is popped is NULL, and the slots that were free stay so
  popped_cleared :
      (queue : QueueSem A) (i : ℕ)
      → IsRing queue
      → 0 < queue.empty
      → queue.empty - 1 ≤ i
      → i < queue.size
      → entry_at (set queue.q queue.tail none) (slot_at queue.size queue.tail (i + 1)) ≡ none
  popped_cleared queue i v p g b = elim (Bool-cases (ltb (i + 1) queue.size)) [
    | inl inside ↦
        entry_at-set_ne queue.q queue.tail (slot_at queue.size queue.tail (i + 1)) none
          (tail_ne queue.size queue.tail i v.tail_lt (ground arith))
        ∙ v.cleared (i + 1) (omega arith) (ground arith)
    | inr last ↦
        let back : slot_at queue.size queue.tail (i + 1) ≡ queue.tail = ground (arith, v.tail_lt) in
        ap (entry_at (set queue.q queue.tail none)) back
        ∙ entry_at-set_self queue.q queue.tail none (omega (arith, v.tail_lt, v.room))
  ]

  popped-IsRing : (queue : QueueSem A) → IsRing queue → 0 < queue.empty → IsRing (popped queue)
  popped-IsRing queue v p = record {
    counted = omega (arith, v.counted);
    room = length-set queue.q queue.tail none ∙ v.room;
    tail_lt = advance_lt queue.size queue.tail v.tail_lt;
    head_at =
        v.head_at
        ∙ slot_at_back queue.size queue.tail queue.empty v.tail_lt p (omega (arith, v.counted));
    cleared = λ i g b.
        ap (entry_at (set queue.q queue.tail none))
          (slot_at-advance queue.size queue.tail i v.tail_lt b)
        ∙ popped_cleared queue i v p g b;
  }

  -- A push to a queue with room puts the entry, also a NULL one, behind those that wait, and a push to a queue of
  -- `size` entries waits; the queue stays well formed.
  pub queue_sem_push_lem :
      (queue : QueueSem A) (entry : Option A)
      → IsRing queue
      → (queue.empty ≡ queue.size → queue_sem_push A queue entry ≡ waits)
        × (queue.empty < queue.size
            → (queue' : QueueSem A) × (queue_sem_push A queue entry ≡ returns queue')
              × (view queue' ≡ view queue ++ entry ∷ [])
              × IsRing queue')
  unfolding queue_sem_push view
  queue_sem_push_lem queue entry v = (
    push_full queue entry v,
    λ h. (
      pushed queue entry,
      push_done queue entry v h,
      ap₂ (λ hd n. entries queue.size queue.tail (set queue.q hd entry) 0 n) v.head_at (omega arith)
          ∙ entries-push queue.size queue.tail queue.q entry v.tail_lt v.room 0 queue.empty
              queue.empty (omega arith) h,
      pushed-IsRing queue entry v h,
    ),
  )

  -- A pop returns the first of the entries that wait and leaves the others in their order; from a queue where none
  -- waits it waits itself. The queue stays well formed.
  pub queue_sem_pop_lem :
      (queue : QueueSem A)
      → IsRing queue
      → (queue.empty ≡ 0 → queue_sem_pop A queue ≡ waits)
        × (0 < queue.empty
            → (entry : Option A) × (queue' : QueueSem A) × (queue_sem_pop A queue
                ≡ returns (entry, queue'))
              × (view queue ≡ entry ∷ view queue')
              × IsRing queue')
  unfolding queue_sem_pop view entries
  queue_sem_pop_lem queue v = (
    λ z. let e : (queue.empty == 0) ≡ true = ground arith in rw e refl,
    λ p. (
      entry_at queue.q queue.tail,
      popped queue,
      pop_done queue p,
      entries-first queue.size queue.tail queue.empty queue.q v.tail_lt p
          ∙ ap (λ r. entry_at queue.q queue.tail ∷ r)
              (sym (
                entries-pop queue.size queue.tail queue.q none v.tail_lt v.room 0 (queue.empty - 1)
                  (omega (arith, v.counted)))),
      popped-IsRing queue v p,
    ),
  )

-- A new queue of at least one entry, where its semaphores and its array are made, is well formed and empty.
pub init_queue_sem_lem :
    (A : Type 0) (size : ℕ)
    → 0 < size
    → (queue : QueueSem A) × (init_queue_sem A true size ≡ done (some queue))
      × (queue.size ≡ size)
      × (view A queue ≡ [])
      × IsRing A queue
unfolding init_queue_sem view entries
init_queue_sem_lem A zero h = absurd (omega arith)
init_queue_sem_lem A (suc n) h = (
  record { full = suc n; empty = 0; head = 0; tail = 0; size = suc n; q = null_entries (suc n) },
  refl,
  refl,
  refl,
  record {
    counted = omega arith;
    room = length-null_entries A (suc n);
    tail_lt = omega arith;
    head_at = ground arith;
    cleared = λ i g b. entry_at-null_entries (suc n) (slot_at (suc n) 0 i);
  },
)

-- the semaphore `empty` counts the entries that wait
pub length-view : (A : Type 0) (queue : QueueSem A) → length (view A queue) ≡ queue.empty
unfolding view
length-view A queue = length-entries A queue.size queue.tail queue.q 0 queue.empty
