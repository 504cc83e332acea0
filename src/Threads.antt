-- ===== src/Threads.antt =====
-- server_thread/src/client_thread.c: the threads of the server, one for each client. The list is one of
-- struct_bsd/inc/queue.h, a copy of BSD's sys/queue.h, taken as an interface. Each of these functions holds the lock
-- of the list while it changes it; a call of it that fails, but for the holder's own
-- second one, stops the process and is not modelled.
pub mod Join
pub mod Steps
pub mod Invariant
pub mod Locks
pub mod Joining
pub mod Keeps
pub mod Safety
use smtp_course_work.Base.{
  ℕ, zero, suc, ◌≡◌, refl, Bool, true, false, Option, none, some, List, [], ◌∷◌, Outcome, done,
  abort, Status, success, failure, ◌==◌, if◌then◌else◌, ℤ, pos, sucℤ, predℤ, is_zeroℤ,
}
use smtp_course_work.Stailq.{head_of}
use smtp_course_work.Kernel.{Call, returns, waits, aborts}

-- `struct client_thread`, with its address; the server that it points to is the only one.
pub record ClientThread : Type 0 where
  pub at : ℕ
  pub id : ℕ
  pub socket : ℕ

-- the list without the first entry at an address
abbrev pub erase_at : ℕ → List ClientThread → List ClientThread
erase_at p [] = []
erase_at p (t ∷ ts) = let rest = erase_at p ts in if t.at == p then ts else t ∷ rest

-- LIST_INIT, LIST_FIRST, LIST_INSERT_HEAD, LIST_REMOVE. `view` is the list of the entries, from the first to the last.
pub record ThreadsList : Type 1 where
  pub Queue : Type 0
  pub view : Queue → List ClientThread
  pub init : Queue
  pub first : Queue → Option ClientThread
  pub insert_head : Queue → ClientThread → Queue
  pub remove : Queue → ℕ → Queue
  pub view-init : view init ≡ []
  pub first_lem : (q : Queue) → first q ≡ head_of (view q)
  pub view-insert_head : (q : Queue) (t : ClientThread) → view (insert_head q t) ≡ t ∷ view q
  pub view-remove : (q : Queue) (p : ℕ) → view (remove q p) ≡ erase_at p (view q)

-- Lists meet the interface.
abbrev pub list_threads : ThreadsList
list_threads = record {
  Queue = List ClientThread;
  view = λ q. q;
  init = [];
  first = λ q. head_of q;
  insert_head = λ q t. t ∷ q;
  remove = λ q p. erase_at p q;
  view-init = refl;
  first_lem = λ q. refl;
  view-insert_head = λ q t. refl;
  view-remove = λ q p. refl;
}

module _ (tl : ThreadsList) where
  open tl use {Queue, init, first, insert_head, remove}

  -- `struct client_threads`; the lock, which is only taken for writing, is whether it is held.
  pub record ClientThreads : Type 0 where
    pub n : ℤ
    pub list : Queue
    pub locked : Bool

  -- `made` tells whether the lock is made; `none` is -1.
  unfoldable pub init_threads : Bool → Option ClientThreads
  init_threads made =
      if made then some (record { n = pos 0; list = init; locked = false }) else none

  unfoldable pub destroy_threads : ClientThreads → Outcome (Unit {0})
  destroy_threads threads = if is_zeroℤ threads.n then done tt else abort

  -- Nobody gets a lock that is held. `again` tells whether the call finds that its own thread is the holder: it may
  -- then return EDEADLK, which `fatal` ends the process with, or wait as another thread does.
  unfoldable pub wrlock : Bool → ClientThreads → Call ClientThreads
  wrlock again threads =
      if threads.locked
      then if again then aborts else waits
      else returns (record threads { locked = true })

  unfoldable pub unlock : ClientThreads → ClientThreads
  unlock threads = record threads { locked = false }

  -- `new_thread` up to `pthread_create`
  unfoldable pub begin_new_thread : Bool → ClientThreads → Call ClientThreads
  unfolding wrlock
  begin_new_thread again threads = elim (wrlock again threads) [
    | returns locked ↦ returns (record locked { n = sucℤ locked.n })
    | waits ↦ waits
    | aborts ↦ aborts
  ]

  -- and behind it, where it succeeds
  unfoldable pub end_new_thread : ClientThread → ClientThreads → ClientThreads
  unfolding unlock
  end_new_thread thread threads = unlock (record threads { list = insert_head threads.list thread })

  -- `memory` is the address that `malloc` returns, and `created` the thread of `pthread_create`. The failure of the
  -- latter is `goto error`, behind the unlocking.
  unfoldable pub new_thread :
      Bool → Option ℕ → Option ℕ → ℕ → ClientThreads → Call (Status × ClientThreads)
  unfolding begin_new_thread end_new_thread
  new_thread again none created socket threads = returns (failure, threads)
  new_thread again (some at) created socket threads = elim (begin_new_thread again threads) [
    | waits ↦ waits
    | aborts ↦ aborts
    | returns begun ↦ elim created [
      | none ↦ returns (failure, begun)
      | some id ↦
          returns (success, end_new_thread (record { at = at; id = id; socket = socket }) begun)
    ]
  ]

  unfoldable pub remove_thread_unsafe : ℕ → ClientThreads → ClientThreads
  remove_thread_unsafe at threads = record threads {
    n = predℤ threads.n;
    list = remove threads.list at;
  }

  unfoldable pub remove_thread : Bool → ℕ → ClientThreads → Call ClientThreads
  unfolding wrlock remove_thread_unsafe unlock
  remove_thread again at threads = elim (wrlock again threads) [
    | waits ↦ waits
    | aborts ↦ aborts
    | returns locked ↦ returns (unlock (remove_thread_unsafe at locked))
  ]

  -- The loop LIST_FOREACH of `join_threads`: it reads the link to the next entry from the entry that it has just freed,
  -- so that what comes is what the memory still holds, `stale`. The number bounds the rounds.
  unfoldable pub join_list :
      (ClientThread → Option ClientThread)
      → ℕ
      → Option ClientThread
      → ClientThreads
      → Call ClientThreads
  unfolding remove_thread_unsafe
  join_list stale fuel none threads = returns threads
  join_list stale zero (some joined) threads = waits
  join_list stale (suc fuel) (some joined) threads =
      join_list stale fuel (stale joined) (remove_thread_unsafe joined.at threads)

  unfoldable pub join_threads :
      Bool → (ClientThread → Option ClientThread) → ℕ → ClientThreads → Call ClientThreads
  unfolding wrlock join_list unlock
  join_threads again stale fuel threads = elim (wrlock again threads) [
    | waits ↦ waits
    | aborts ↦ aborts
    | returns locked ↦ elim (join_list stale fuel (first locked.list) locked) [
      | waits ↦ waits
      | aborts ↦ aborts
      | returns joined ↦ if is_zeroℤ joined.n then returns (unlock joined) else aborts
    ]
  ]
