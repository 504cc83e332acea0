-- ===== src/Tests/Threads.antt =====
-- The queue on semaphores and a thread of the parallel database at concrete inputs.
use smtp_course_work.Base.{
  ℕ, zero, suc, ◌≤◌, ◌<◌, ◌≡◌, refl, true, false, Option, none, some, List, [], ◌∷◌, ◌++◌, Bytes,
  arith,
}
use smtp_course_work.Kernel.{returns, waits}
use smtp_course_work.QueueSem.{QueueSem, entry_at, queue_sem_push, queue_sem_pop}
use smtp_course_work.QueueSem.Entries.{slot_at, entries}
use smtp_course_work.QueueSem.Fifo.{view, IsRing, queue_sem_push_lem, queue_sem_pop_lem}
use smtp_course_work.Stailq.{list_stailq}
use smtp_course_work.QueueCnd.{CndQueue, pop_cnd}
use smtp_course_work.QueueCnd.Fifo.{waiting, Popped, pop_cnd-Popped}
use smtp_course_work.Db.Tree.{map_tree}
use smtp_course_work.Db.Simple.{init_simple_db}
use smtp_course_work.Db.Simple.Laws
use smtp_course_work.Db.Simple.Laws.{IsValid, init_simple_db-IsValid}
use smtp_course_work.Db.Parallel.{Request}
use smtp_course_work.Db.Parallel.Order.{Ran, answers, run_thread, run_thread-answers}

-- a ring of three entries, which wraps: two wait
abbrev ring : QueueSem Bytes
ring = record {
  full = 1;
  empty = 2;
  head = 1;
  tail = 2;
  size = 3;
  q = some [] ∷ none ∷ some (97 ∷ []) ∷ [];
}

ring-IsRing : IsRing Bytes ring
unfolding entry_at
ring-IsRing = record {
  counted = refl;
  room = refl;
  tail_lt = omega arith;
  head_at = refl;
  cleared = λ i g b. third i g b;
}
  where
    third : (i : ℕ) → 2 ≤ i → i < 3 → entry_at ring.q (slot_at 3 2 i) ≡ none
    third zero g b = absurd (omega arith)
    third (suc zero) g b = absurd (omega arith)
    third (suc (suc zero)) g b = refl
    third (suc (suc (suc i))) g b = absurd (omega arith)

queue_sem_push_lem_example :
    (ring.empty ≡ ring.size → queue_sem_push Bytes ring none ≡ waits)
    × (2 < 3
        → (queue : QueueSem Bytes) × (queue_sem_push Bytes ring none ≡ returns queue)
          × (view Bytes queue ≡ view Bytes ring ++ none ∷ [])
          × IsRing Bytes queue)
queue_sem_push_lem_example = queue_sem_push_lem Bytes ring none ring-IsRing

queue_sem_pop_lem_example :
    (ring.empty ≡ 0 → queue_sem_pop Bytes ring ≡ waits)
    × (0 < 2
        → (entry : Option Bytes) × (queue : QueueSem Bytes) × (queue_sem_pop Bytes ring
            ≡ returns (entry, queue))
          × (view Bytes ring ≡ entry ∷ view Bytes queue)
          × IsRing Bytes queue)
queue_sem_pop_lem_example = queue_sem_pop_lem Bytes ring ring-IsRing

-- "k" is set to "v" and asked for by connection 4
abbrev requests : List (Option Request)
requests =
    some (record { key = some (b'k' ∷ []); value = some (b'v' ∷ []); is_get = false; arg = 0 })
    ∷ some (record { key = some (b'k' ∷ []); value = none; is_get = true; arg = 4 })
    ∷ none
    ∷ []

abbrev queue : QueueSem Request
queue = record { full = 0; empty = 3; head = 0; tail = 0; size = 3; q = requests }

queue-IsRing : IsRing Request queue
queue-IsRing = record {
  counted = refl;
  room = refl;
  tail_lt = omega arith;
  head_at = refl;
  cleared = λ i g b. absurd (omega arith);
}

queue-view : view Request queue ≡ requests
unfolding view entries entry_at
queue-view = refl

run_thread-answers_example :
    (ran : Ran map_tree) × (run_thread map_tree 3 queue (init_simple_db map_tree) ≡ returns ran)
    × (ran.results ≡ answers requests (Laws.view map_tree (init_simple_db map_tree)))
    × IsRing Request ran.queue
    × IsValid map_tree ran.sub
run_thread-answers_example =
    run_thread-answers map_tree requests queue (init_simple_db map_tree)
      (Laws.view map_tree (init_simple_db map_tree)) queue-IsRing queue-view
      ((b'k' ∷ [], refl), ((b'k' ∷ [], refl), tt)) (init_simple_db-IsValid map_tree) (λ j. refl)

-- one request is moved already, one is not, and the queue has been stopped
abbrev stopped_queue : CndQueue (list_stailq ℕ)
stopped_queue = record { queue = 8 ∷ []; local_queue = 7 ∷ []; running = false }

pop_cnd-Popped_example :
    Popped
      (list_stailq ℕ)
      stopped_queue
      (waiting (list_stailq ℕ) stopped_queue)
      (pop_cnd (list_stailq ℕ) stopped_queue)
pop_cnd-Popped_example = pop_cnd-Popped (list_stailq ℕ) stopped_queue
