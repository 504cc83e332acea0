-- ===== src/Threads/Steps.antt =====
-- server_thread/src/thread_server.c as steps: the thread of `run_server`, and `thread_func` for each client, in any
-- order. A thread is known by the address of its `struct client_thread`; each allocation has an address of its own.
use smtp_course_work.Base.{
  ℕ, ◌≡◌, ◌⊎◌, Bool, true, false, Option, none, some, List, [], ◌∷◌, ◌==◌, if◌then◌else◌, is_zeroℤ,
}
use smtp_course_work.Kernel.{returns, aborts}
use smtp_course_work.Threads.{
  ClientThread, ThreadsList, ClientThreads, begin_new_thread, end_new_thread, wrlock, unlock,
  remove_thread, remove_thread_unsafe,
}

-- `enum server_state`
pub data ServerState : Type 0 where
  server_running server_shutdown : ServerState

-- Where `run_server` is: in its loop, in `new_thread` with the lock held before and after `pthread_create`, behind the
-- loop, in the loop of `join_threads` with the lock held and the entry that it has come to, and at its end, or
-- returned from a failing `accept`; or the process has ended, by `fatal` or by the assertion of `join_threads`.
pub data MainPc : Type 0 where
  accepting stopping finished left exited asserted : MainPc
  creating created : ClientThread → MainPc
  joining : Option ClientThread → MainPc

-- The process runs.
abbrev pub is_alive : MainPc → Bool
is_alive exited = false
is_alive asserted = false
is_alive _ = true

-- An entry at an address is in the list.
abbrev pub Listed : ℕ → List ClientThread → Type 0
Listed p [] = ⊥
Listed p (t ∷ ts) = (t.at ≡ p) ⊎ Listed p ts

-- Where a thread is: not yet made; in the loop that serves its client; behind it; with the state read and
-- SERVER_RUNNING, the state's lock held; removed, the lock still held; and at its end.
pub data ThreadPc : Type 0 where
  unborn serving leaving inside removed ended : ThreadPc

-- The lock of the state is held for reading.
abbrev pub is_reader : ThreadPc → Bool
is_reader inside = true
is_reader removed = true
is_reader _ = false

abbrev pub update {ℓ} : {A : Type ℓ} → (ℕ → A) → ℕ → A → ℕ → A
update f i a j = if i == j then a else f j

module _ (tl : ThreadsList) where
  open tl use {view, first}

  pub record System : Type 0 where
    pub threads : ClientThreads tl
    pub state : ServerState
    pub main : MainPc
    pub pc : ℕ → ThreadPc

  -- A step goes from one call that may wait to the next. What happens between the locking and the unlocking of
  -- `remove_thread`, and of the state for writing, is one step, since nobody else gets the lock meanwhile.
  pub data Step (s : System) : System → Type 0 where
    -- `new_thread` of an accepted client
    begins :
        (t : ClientThread) (threads : ClientThreads tl)
        → s.main ≡ accepting
        → s.pc t.at ≡ unborn
        → begin_new_thread tl false s.threads ≡ returns threads
        → Step s (record s { threads = threads; main = creating t })
    -- The thread of `run_server` holds the lock from before, and the call tells it: outside `remove_thread` and the
    -- steps of `new_thread` and `join_threads` nobody else holds it.
    deadlocks :
        s.main ≡ accepting
        → begin_new_thread tl true s.threads ≡ aborts
        → Step s (record s { main = exited })
    creates :
        (t : ClientThread)
        → s.main ≡ creating t
        → Step s (record s { main = created t; pc = update s.pc t.at serving })
    creates_nothing :
        (t : ClientThread) → s.main ≡ creating t → Step s (record s { main = accepting })
    inserts :
        (t : ClientThread)
        → s.main ≡ created t
        → Step s (record s { threads = end_new_thread tl t s.threads; main = accepting })
    accept_fails : s.main ≡ accepting → Step s (record s { main = left })
    -- the signal, and SERVER_SHUTDOWN under the state's lock for writing
    shuts_down :
        s.main ≡ accepting
        → ((j : ℕ) → is_reader (s.pc j) ≡ false)
        → Step s (record s { state = server_shutdown; main = stopping })
    locks_list :
        (threads : ClientThreads tl)
        → s.main ≡ stopping
        → wrlock tl false s.threads ≡ returns threads
        → Step s (record s { threads = threads; main = joining (first threads.list) })
    deadlocks_behind :
        s.main ≡ stopping → wrlock tl true s.threads ≡ aborts → Step s (record s { main = exited })
    -- The next entry is what the link of the freed one reads as, which may be anything. From a pointer to no entry of
    -- the list, which would be freed once more or was none, the code has no behaviour, and the model no step.
    joins :
        (t : ClientThread) (next : Option ClientThread)
        → s.main ≡ joining (some t)
        → Listed t.at (view s.threads.list)
        → s.pc t.at ≡ ended
        → Step s
            (record s { threads = remove_thread_unsafe tl t.at s.threads; main = joining next })
    -- the end of the loop, where the assertion holds, and where it fails
    joins_nothing :
        s.main ≡ joining none
        → is_zeroℤ s.threads.n ≡ true
        → Step s (record s { threads = unlock tl s.threads; main = finished })
    assert_fails :
        s.main ≡ joining none → is_zeroℤ s.threads.n ≡ false → Step s (record s { main = asserted })
    -- `init_fd_cnct` fails
    exits : (j : ℕ) → s.pc j ≡ serving → Step s (record s { pc = update s.pc j ended })
    closes : (j : ℕ) → s.pc j ≡ serving → Step s (record s { pc = update s.pc j leaving })
    -- the state is read under its lock
    enters :
        (j : ℕ)
        → s.pc j ≡ leaving
        → s.state ≡ server_running
        → Step s (record s { pc = update s.pc j inside })
    passes :
        (j : ℕ)
        → s.pc j ≡ leaving
        → s.state ≡ server_shutdown
        → Step s (record s { pc = update s.pc j ended })
    removes :
        (j : ℕ) (threads : ClientThreads tl)
        → s.pc j ≡ inside
        → remove_thread tl false j s.threads ≡ returns threads
        → Step s (record s { threads = threads; pc = update s.pc j removed })
    unlocks : (j : ℕ) → s.pc j ≡ removed → Step s (record s { pc = update s.pc j ended })

  -- behind `init_server`
  abbrev pub started : ClientThreads tl → System
  started threads = record {
    threads = threads;
    state = server_running;
    main = accepting;
    pc = λ j. unborn;
  }

  -- Nothing happens once the process has ended.
  pub data Reach (s : System) : System → Type 0 where
    here : Reach s s
    next : {t u : System} → Reach s t → is_alive t.main ≡ true → Step t u → Reach s u
