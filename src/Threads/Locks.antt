-- ===== src/Threads/Locks.antt =====
-- What taking the lock of the list tells, and the steps that leave the list alone.
use smtp_course_work.Base.{
  ℕ, ◌+◌, ◌≡◌, inl, inr, refl, sym, ap, ◌∙◌, subst, Bool, true, false, length, pos, sucℤ, predℤ,
  arith, Bool-cases,
}
use smtp_course_work.Kernel.{returns}
use smtp_course_work.Threads.{
  ThreadsList, ClientThreads, begin_new_thread, wrlock, unlock, remove_thread, remove_thread_unsafe,
}
use smtp_course_work.Threads.Steps.{
  server_shutdown, MainPc, ThreadPc, inside, is_reader, Listed, update, System,
}
use smtp_course_work.Threads.Invariant.{
  is_serving, IsNew, holds_lock, is_joining, is_down, Ending, new_holds, update_cases, Inv,
}

module _ (tl : ThreadsList) where
  open tl use {view}

  -- the lock is given only where nobody holds it
  pub wrlock_lem :
      (again : Bool) (ths ths' : ClientThreads tl)
      → wrlock tl again ths ≡ returns ths'
      → (ths.locked ≡ false) × (ths' ≡ record ths { locked = true })
  unfolding wrlock
  wrlock_lem again ths ths' h = elim (Bool-cases ths.locked) [
    | inl l ↦ absurd (ground (arith, h, l))
    | inr l ↦ (l, ground (arith, h, l))
  ]

  pub begin_lem :
      (again : Bool) (ths ths' : ClientThreads tl)
      → begin_new_thread tl again ths ≡ returns ths'
      → (ths.locked ≡ false) × (ths' ≡ record ths { locked = true; n = sucℤ ths.n })
  unfolding begin_new_thread wrlock
  begin_lem again ths ths' h = elim (Bool-cases ths.locked) [
    | inl l ↦ absurd (ground (arith, h, l))
    | inr l ↦ (l, ground (arith, h, l))
  ]

  pub remove_lem :
      (again : Bool) (p : ℕ) (ths ths' : ClientThreads tl)
      → remove_thread tl again p ths ≡ returns ths'
      → (ths.locked ≡ false)
        × (ths' ≡ record ths { n = predℤ ths.n; list = tl.remove ths.list p; locked = false })
  unfolding remove_thread wrlock remove_thread_unsafe unlock
  remove_lem again p ths ths' h = elim (Bool-cases ths.locked) [
    | inl l ↦ absurd (ground (arith, h, l))
    | inr l ↦ (l, ground (arith, h, l))
  ]

  -- A thread goes on, and neither begins to serve, nor to read the state where the server is shut down.
  pub thread-Inv :
      (s : System tl) (i : ℕ) (a : ThreadPc)
      → Inv tl s
      → (is_serving a ≡ true → is_serving (s.pc i) ≡ true)
      → (s.state ≡ server_shutdown → is_reader a ≡ false)
      → Inv tl (record s { pc = update s.pc i a })
  thread-Inv s i a v serves reads = record {
    count = v.count;
    listed = λ j e. elim (update_cases s.pc i j a) [
      | inl (same, u) ↦
          v.listed j
            (subst (λ k. is_serving (s.pc k) ≡ true) same (serves (sym (ap is_serving u) ∙ e)))
      | inr (other, u) ↦ v.listed j (sym (ap is_serving u) ∙ e)
    ];
    held = v.held;
    down = v.down;
    ending = v.ending;
    quiet = λ e j. elim (update_cases s.pc i j a) [
      | inl (same, u) ↦ ap is_reader u ∙ reads e
      | inr (other, u) ↦ ap is_reader u ∙ v.quiet e j
    ];
  }

  -- The thread of `run_server` goes on, the lock as it was.
  pub main-Inv :
      (s : System tl) (m : MainPc)
      → Inv tl s
      → is_joining s.main ≡ false
      → is_joining m ≡ false
      → ((p : ℕ) → IsNew s.main p → ⊥)
      → (holds_lock m ≡ true → holds_lock s.main ≡ true)
      → (is_down m ≡ true → is_down s.main ≡ true)
      → Ending m (view s.threads.list)
      → Inv tl (record s { main = m })
  main-Inv s m v j k fresh holds goes ends = record {
    count = v.count ∙ ap (λ a. pos (length (view s.threads.list) + a)) (rw (j, k) refl);
    listed = λ i e. elim (v.listed i e) [ inl l ↦ inl l | inr f ↦ absurd (fresh i f) ];
    held = λ e. v.held (holds e);
    down = λ e. v.down (goes e);
    ending = ends;
    quiet = v.quiet;
  }

  -- nobody is new while `run_server` is elsewhere
  pub old :
      (s : System tl) (m : MainPc)
      → Inv tl s
      → s.main ≡ m
      → ((p : ℕ) → IsNew m p → ⊥)
      → (j : ℕ) → is_serving (s.pc j) ≡ true
      → Listed j (view s.threads.list)
  old s m v h none_new j e = elim (v.listed j e) [
    | inl l ↦ l
    | inr f ↦ absurd (none_new j (subst (λ k. IsNew k j) h f))
  ]

  -- While the lock is free, every thread that serves is in the list.
  pub Listed-free :
      (s : System tl) (j : ℕ)
      → Inv tl s
      → is_serving (s.pc j) ≡ true
      → s.threads.locked ≡ false
      → Listed j (view s.threads.list)
  Listed-free s j v e free = elim (v.listed j e) [
    | inl l ↦ l
    | inr f ↦ absurd (ground (arith, sym (v.held (new_holds s.main j f)) ∙ free))
  ]

  pub inside-Listed :
      (s : System tl) (i : ℕ)
      → Inv tl s
      → s.pc i ≡ inside
      → s.threads.locked ≡ false
      → Listed i (view s.threads.list)
  inside-Listed s i v h free = Listed-free s i v (ap is_serving h) free
