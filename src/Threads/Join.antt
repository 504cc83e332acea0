-- ===== src/Threads/Join.antt =====
-- `join_threads` reads the link of an entry that it has freed: what comes of that.
use smtp_course_work.Base.{
  ℕ, zero, suc, ◌≤◌, ◌≡◌, refl, ap, ◌∙◌, true, false, Bool, Option, none, List, [], ◌∷◌, length,
  ◌==◌, pos, predℤ, arith,
}
use smtp_course_work.Stailq.{head_of}
use smtp_course_work.Kernel.{returns, aborts}
use smtp_course_work.Threads.{
  ClientThread, erase_at, ThreadsList, ClientThreads, remove_thread_unsafe, join_list, join_threads,
  wrlock, unlock,
}

-- The memory of each entry that has been freed still holds its link.
abbrev pub Kept : (ClientThread → Option ClientThread) → List ClientThread → Type 0
Kept stale [] = Unit
Kept stale (t ∷ ts) = (stale t ≡ head_of ts) × Kept stale ts

erase_first : (t : ClientThread) (ts : List ClientThread) → erase_at t.at (t ∷ ts) ≡ ts
erase_first t ts = rw (self t.at) refl
  where
    self : (a : ℕ) → (a == a) ≡ true
    self a = ground arith

module _ (tl : ThreadsList) where
  open tl use {view, first}

  -- what the loop leaves: no threads
  abbrev Emptied : ClientThreads tl → ClientThreads tl → Type 0
  Emptied threads t = (t.n ≡ pos 0) × (view t.list ≡ []) × (t.locked ≡ threads.locked)

  join_list_all :
      (stale : ClientThread → Option ClientThread) (l : List ClientThread) (fuel : ℕ)
      (threads : ClientThreads tl)
      → Kept stale l
      → view threads.list ≡ l
      → threads.n ≡ pos (length l)
      → length l ≤ fuel
      → (t : ClientThreads tl) × (join_list tl stale fuel (head_of l) threads ≡ returns t)
        × Emptied threads t
  unfolding join_list remove_thread_unsafe
  join_list_all stale [] fuel threads k v c f = (threads, refl, (c, v, refl))
  join_list_all stale (x ∷ l) zero threads k v c f = absurd (omega arith)
  join_list_all stale (x ∷ l) (suc fuel) threads k v c f =
      let r =
        join_list_all stale l fuel (remove_thread_unsafe tl x.at threads) k.1
          (tl.view-remove threads.list x.at ∙ ap (λ q. erase_at x.at q) v ∙ erase_first x l)
          (ap predℤ c) (omega arith) in
      (r.0, rw (k.0, join_list) r.1, r.2)

  join_threads-Kept :
      (again : Bool) (stale : ClientThread → Option ClientThread) (fuel : ℕ)
      (threads : ClientThreads tl)
      → threads.locked ≡ false
      → threads.n ≡ pos (length (view threads.list))
      → length (view threads.list) ≤ fuel
      → Kept stale (view threads.list)
      → (t : ClientThreads tl) × (join_threads tl again stale fuel threads ≡ returns t)
        × (t.n ≡ pos 0)
        × (view t.list ≡ [])
        × (t.locked ≡ false)
  unfolding join_threads wrlock unlock
  join_threads-Kept again stale fuel threads free c f k =
      let r =
        join_list_all stale (view threads.list) fuel (record threads { locked = true }) k refl c
          f in
      (
        unlock tl r.0,
        rw (free, tl.first_lem threads.list, r.1, r.2.0, join_threads) refl,
        r.2.0,
        r.2.1,
        refl,
      )

  join_threads_lost :
      (again : Bool) (stale : ClientThread → Option ClientThread) (fuel : ℕ)
      (threads : ClientThreads tl) (x y : ClientThread) (l : List ClientThread)
      → threads.locked ≡ false
      → view threads.list ≡ x ∷ y ∷ l
      → threads.n ≡ pos (length (view threads.list))
      → stale x ≡ none
      → join_threads tl again stale (suc fuel) threads ≡ aborts
  unfolding join_threads wrlock join_list remove_thread_unsafe
  join_threads_lost again stale fuel threads x y l free v c lost =
      rw
        (
          free,
          tl.first_lem threads.list,
          v,
          c ∙ ap (λ q. pos (length q)) v,
          lost,
          join_threads,
          join_list,
        )
        refl

  -- Where the lock is free and the threads counted are those of the list: if each entry that has been freed still
  -- holds its link, `join_threads` takes all threads off the list, within as many rounds, and releases the lock; if the
  -- link of the first entry reads as NULL once it is freed, and there are two threads or more, the assertion fails
  -- after one of them has been joined.
  pub join_threads_lem :
      (again : Bool) (stale : ClientThread → Option ClientThread) (fuel : ℕ)
      (threads : ClientThreads tl)
      → threads.locked ≡ false
      → threads.n ≡ pos (length (view threads.list))
      → (length (view threads.list) ≤ fuel
          → Kept stale (view threads.list)
          → (t : ClientThreads tl) × (join_threads tl again stale fuel threads ≡ returns t)
            × (t.n ≡ pos 0)
            × (view t.list ≡ [])
            × (t.locked ≡ false))
        × ((x y : ClientThread) (l : List ClientThread)
            → view threads.list ≡ x ∷ y ∷ l
            → stale x ≡ none
            → join_threads tl again stale (suc fuel) threads ≡ aborts)
  join_threads_lem again stale fuel threads free c = (
    λ f k. join_threads-Kept again stale fuel threads free c f k,
    λ x y l v lost. join_threads_lost again stale fuel threads x y l free v c lost,
  )
