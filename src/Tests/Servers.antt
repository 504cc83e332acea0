-- ===== src/Tests/Servers.antt =====
-- The servers that serve a client to its end at concrete inputs.
use smtp_course_work.Base.{
  ℕ, ◌≤◌, ◌≡◌, ◌≢◌, refl, true, false, Option, none, some, List, [], ◌∷◌, pos, Bool, if◌then◌else◌,
}
use smtp_course_work.Kernel.{returns, waits, aborts}
use smtp_course_work.Threads.{
  ClientThread, list_threads, ClientThreads, init_threads, remove_thread, new_thread,
  begin_new_thread, end_new_thread, join_threads,
}
use smtp_course_work.Threads.Steps.{
  Listed, server_shutdown, unborn, ended, accepting, joining, finished, creating, serving, System,
  begins, creates, inserts, started, Reach, here, next, update,
}
use smtp_course_work.Threads.Invariant.{is_serving}
use smtp_course_work.Threads.Safety.{threads_counted, failed_create, failed_create_blocks}
use smtp_course_work.Threads.Join.{Kept, join_threads_lem}

abbrev first_thread : ClientThread
first_thread = record { at = 100; id = 1; socket = 5 }

abbrev empty_threads : ClientThreads list_threads
empty_threads = record { n = pos 0; list = []; locked = false }

threads_made : init_threads list_threads true ≡ some empty_threads
unfolding init_threads
threads_made = refl

-- `new_thread` with the lock held
abbrev making : System list_threads
making = record (started list_threads empty_threads) {
  threads = record { n = pos 1; list = []; locked = true };
  main = creating first_thread;
}

making_reached : Reach list_threads (started list_threads empty_threads) making
unfolding begin_new_thread
making_reached = next here refl (begins first_thread making.threads refl refl refl)

abbrev one_thread : ClientThreads list_threads
one_thread = record { n = pos 1; list = first_thread ∷ []; locked = false }

-- the thread serves its client
abbrev running : System list_threads
running = record making {
  threads = one_thread;
  main = accepting;
  pc = update (λ j. unborn) 100 serving;
}

running_reached : Reach list_threads (started list_threads empty_threads) running
unfolding end_new_thread
running_reached =
    next (next making_reached refl (creates first_thread refl)) refl (inserts first_thread refl)

threads_counted_example :
    (running.threads.n ≡ pos 1)
    × ((j : ℕ) → is_serving (running.pc j) ≡ true → Listed j (first_thread ∷ []))
threads_counted_example =
    threads_counted list_threads empty_threads threads_made running running_reached refl

-- the thread has ended, and the list is about to be joined
abbrev stopped_at : System list_threads
stopped_at = record {
  threads = record one_thread { locked = true };
  state = server_shutdown;
  main = joining (some first_thread);
  pc = update (update (λ j. unborn) 100 serving) 100 ended;
}

-- its only thread has been joined, and the memory of its entry reads as NULL
abbrev joined_at : System list_threads
joined_at = record stopped_at { threads = empty_threads; main = finished }

failed_create_blocks_example :
    ((failed_create list_threads making).threads ≡ making.threads)
    × ((j : ℕ) → remove_thread list_threads false j making.threads ≡ waits)
    × ((again : Bool) (at id socket : ℕ)
        → new_thread list_threads again (some at) (some id) socket making.threads
          ≡ (if again then aborts else waits))
    × ((p : Option ClientThread) → accepting ≢ joining p)
    × (accepting ≢ finished)
failed_create_blocks_example =
    failed_create_blocks list_threads empty_threads threads_made making
      (failed_create list_threads making) first_thread making_reached refl here

abbrev second_thread : ClientThread
second_thread = record { at = 200; id = 2; socket = 6 }

abbrev two_threads : ClientThreads list_threads
two_threads = record { n = pos 2; list = first_thread ∷ second_thread ∷ []; locked = false }

-- the memory of an entry that has been freed holds NULL
abbrev cleared : ClientThread → Option ClientThread
cleared t = none

join_threads_lem_example :
    (2 ≤ 3
      → Kept cleared (first_thread ∷ second_thread ∷ [])
      → (t : ClientThreads list_threads) × (join_threads list_threads false cleared 3 two_threads
          ≡ returns t)
        × (t.n ≡ pos 0)
        × (t.list ≡ [])
        × (t.locked ≡ false))
    × ((x y : ClientThread) (l : List ClientThread)
        → first_thread ∷ second_thread ∷ [] ≡ x ∷ y ∷ l
        → cleared x ≡ none
        → join_threads list_threads false cleared 4 two_threads ≡ aborts)
join_threads_lem_example = join_threads_lem list_threads false cleared 3 two_threads refl refl
