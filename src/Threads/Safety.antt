-- ===== src/Threads/Safety.antt =====
-- What the invariant of the threaded server means for its list, its count and its lock.
use smtp_course_work.Base.{
  ℕ, ◌+◌, ◌≡◌, ◌≢◌, inl, inr, refl, sym, ap, ◌∙◌, Bool, true, false, Option, some, length, pos,
  if◌then◌else◌, arith, Bool-cases,
}
use smtp_course_work.Kernel.{waits, aborts}
use smtp_course_work.Threads.{
  ClientThread, ThreadsList, ClientThreads, init_threads, begin_new_thread, new_thread, wrlock,
  remove_thread,
}
use smtp_course_work.Threads.Steps.{
  MainPc, accepting, stopping, joining, finished, left, exited, creating, Listed, System, Step,
  begins, creates, creates_nothing, inserts, accept_fails, shuts_down, locks_list, joins,
  joins_nothing, assert_fails, deadlocks, deadlocks_behind, exits, closes, enters, passes, removes,
  unlocks, started, Reach, here, next,
}
use smtp_course_work.Threads.Invariant.{is_serving, holds_lock, is_joining, ahead, started-Inv}
use smtp_course_work.Threads.Keeps.{Reach-Inv}
use smtp_course_work.Threads.Locks.{wrlock_lem, begin_lem, remove_lem, Listed-free}

ahead_free : (m : MainPc) → ahead false m ≡ 0
ahead_free m = elim (Bool-cases (is_joining m)) [ inl e ↦ rw e refl | inr e ↦ rw e refl ]

plus_zero : (k : ℕ) → pos (k + 0) ≡ pos k
plus_zero k = ap pos (omega arith)

count_free :
    (k : ℕ) (locked : Bool) (m : MainPc) → locked ≡ false → pos (k + ahead locked m) ≡ pos k
count_free k locked m free = rw (free, ahead_free m) (plus_zero k)

-- `run_server` is in its loop, waits for the lock of the list behind it, or has returned from a failing `accept`, or
-- `fatal` has ended the process.
abbrev is_out : MainPc → Bool
is_out accepting = true
is_out stopping = true
is_out left = true
is_out exited = true
is_out _ = false

module _ (tl : ThreadsList) where
  open tl use {view}

  module _ (threads : ClientThreads tl) (made : init_threads tl true ≡ some threads) where
    -- In every state that the server reaches from its start, while nobody holds the lock of the list, the count is
    -- the length of the list, and every thread that serves a client, is closing or is about to remove itself is in
    -- the list, so that LIST_REMOVE only meets entries that are in it.
    pub threads_counted :
        (s : System tl)
        → Reach tl (started tl threads) s
        → s.threads.locked ≡ false
        → (s.threads.n ≡ pos (length (view s.threads.list)))
          × ((j : ℕ) → is_serving (s.pc j) ≡ true → Listed j (view s.threads.list))
    threads_counted s r free =
        let v = Reach-Inv tl (started-Inv tl threads made) r in
        (
          v.count ∙ count_free (length (view s.threads.list)) s.threads.locked s.main free,
          λ j e. Listed-free tl s j v e free,
        )

  -- The thread of `run_server` is out of `new_thread`, and nobody will release the lock of the list.
  pub record IsStuck (s : System tl) : Type 0 where
    pub locked : s.threads.locked ≡ true
    pub out : is_out s.main ≡ true

  Step-IsStuck : {s u : System tl} → Step tl s u → IsStuck s → IsStuck u × (u.threads ≡ s.threads)
  Step-IsStuck {s} (begins t ths m p b) k =
      absurd (ground (arith, sym (begin_lem tl false s.threads ths b).0 ∙ k.locked))
  Step-IsStuck {s} (creates t m) k = absurd (ground (arith, sym (ap is_out m) ∙ k.out))
  Step-IsStuck {s} (creates_nothing t m) k = absurd (ground (arith, sym (ap is_out m) ∙ k.out))
  Step-IsStuck {s} (inserts t m) k = absurd (ground (arith, sym (ap is_out m) ∙ k.out))
  Step-IsStuck {s} (accept_fails m) k = (record { locked = k.locked; out = refl }, refl)
  Step-IsStuck {s} (shuts_down m idle) k = (record { locked = k.locked; out = refl }, refl)
  Step-IsStuck {s} (locks_list ths m w) k =
      absurd (ground (arith, sym (wrlock_lem tl false s.threads ths w).0 ∙ k.locked))
  Step-IsStuck {s} (joins t follower m f e) k = absurd (ground (arith, sym (ap is_out m) ∙ k.out))
  Step-IsStuck {s} (joins_nothing m z) k = absurd (ground (arith, sym (ap is_out m) ∙ k.out))
  Step-IsStuck {s} (assert_fails m z) k = absurd (ground (arith, sym (ap is_out m) ∙ k.out))
  Step-IsStuck {s} (deadlocks m d) k = (record { locked = k.locked; out = refl }, refl)
  Step-IsStuck {s} (deadlocks_behind m d) k = (record { locked = k.locked; out = refl }, refl)
  Step-IsStuck {s} (exits j p) k = (record { locked = k.locked; out = k.out }, refl)
  Step-IsStuck {s} (closes j p) k = (record { locked = k.locked; out = k.out }, refl)
  Step-IsStuck {s} (enters j p r) k = (record { locked = k.locked; out = k.out }, refl)
  Step-IsStuck {s} (passes j p d) k = (record { locked = k.locked; out = k.out }, refl)
  Step-IsStuck {s} (removes j ths p r) k =
      absurd (ground (arith, sym (remove_lem tl false j s.threads ths r).0 ∙ k.locked))
  Step-IsStuck {s} (unlocks j p) k = (record { locked = k.locked; out = k.out }, refl)

  Reach-IsStuck : {s u : System tl} → Reach tl s u → IsStuck s → IsStuck u × (u.threads ≡ s.threads)
  Reach-IsStuck here k = (k, refl)
  Reach-IsStuck (next r a st) k =
      let before = Reach-IsStuck r k in
      let last = Step-IsStuck st before.0 in (last.0, last.1 ∙ before.1)

  -- the states that a failing `pthread_create` leads to
  abbrev pub failed_create : System tl → System tl
  failed_create s = record s { main = accepting }

  -- From the state behind a `pthread_create` that fails, in every state that the server reaches the list is as it was
  -- and its lock is held: a thread that is to be removed waits for it; a new connection waits too, or ends the process
  -- where the call tells that its own thread is the holder; and the server never joins its threads.
  pub failed_create_blocks :
      (threads : ClientThreads tl)
      → init_threads tl true ≡ some threads
      → (s u : System tl) (t : ClientThread) → Reach tl (started tl threads) s
      → s.main ≡ creating t
      → Reach tl (failed_create s) u
      → (u.threads ≡ s.threads)
        × ((j : ℕ) → remove_thread tl false j u.threads ≡ waits)
        × ((again : Bool) (at id socket : ℕ)
            → new_thread tl again (some at) (some id) socket u.threads
              ≡ (if again then aborts else waits))
        × ((p : Option ClientThread) → u.main ≢ joining p)
        × (u.main ≢ finished)
  unfolding remove_thread new_thread begin_new_thread wrlock
  failed_create_blocks threads made s u t reached m r =
      let l = (Reach-Inv tl (started-Inv tl threads made) reached).held (ap holds_lock m) in
      let k = Reach-IsStuck r (record { locked = l; out = refl }) in
      (
        k.1,
        λ j. rw k.0.locked refl,
        λ again at id socket. elim (Bool-cases again) [
          | inl e ↦ rw (k.0.locked, e) refl
          | inr e ↦ rw (k.0.locked, e) refl
        ],
        λ p e. ground (arith, sym (ap is_out e) ∙ k.0.out),
        λ e. ground (arith, sym (ap is_out e) ∙ k.0.out),
      )
