-- ===== src/Threads/Keeps.antt =====
-- Every step of the threaded server keeps its invariant.
use smtp_course_work.Base.{
  ℕ, ◌+◌, ◌≡◌, Bool-cases, inl, inr, refl, sym, ap, ◌∙◌, subst, false, length, pos, arith,
}
use smtp_course_work.Kernel.{returns}
use smtp_course_work.Threads.{
  ClientThread, ThreadsList, ClientThreads, begin_new_thread, end_new_thread, wrlock, unlock,
  remove_thread,
}
use smtp_course_work.Threads.Steps.{
  server_shutdown, MainPc, accepting, stopping, joining, left, exited, creating, created, serving,
  leaving, inside, removed, ended, is_reader, update, System, Step, begins, creates,
  creates_nothing, inserts, accept_fails, shuts_down, locks_list, joins, joins_nothing,
  assert_fails, deadlocks, deadlocks_behind, exits, closes, enters, passes, removes, unlocks, Reach,
  here, next,
}
use smtp_course_work.Threads.Invariant.{
  is_serving, IsNew, holds_lock, is_joining, is_down, ahead, Ending-up, erase_length, Listed-erase,
  update_cases, count_up, count_down, Inv,
}
use smtp_course_work.Threads.Locks.{
  wrlock_lem, begin_lem, remove_lem, thread-Inv, main-Inv, old, Listed-free, inside-Listed,
}
use smtp_course_work.Threads.Joining.{joins-Inv, joined-Inv, asserted-Inv}

module _ (tl : ThreadsList) where
  open tl use {view}

  begins-Inv :
      (s : System tl) (t : ClientThread) (ths : ClientThreads tl)
      → Inv tl s
      → s.main ≡ accepting
      → begin_new_thread tl false s.threads ≡ returns ths
      → Inv tl (record s { threads = ths; main = creating t })
  begins-Inv s t ths v h b =
      let c = begin_lem tl false s.threads ths b in
      rw c.1 (record {
        count = count_up s.threads.n (length (view s.threads.list)) (v.count ∙ (rw (h, c.0) refl));
        listed = λ j e. inl (old tl s accepting v h (λ p f. f) j e);
        held = λ e. refl;
        down = λ e. absurd (ground (arith, e));
        ending = tt;
        quiet = v.quiet;
      })

  creates-Inv :
      (s : System tl) (t : ClientThread)
      → Inv tl s
      → s.main ≡ creating t
      → Inv tl (record s { main = created t; pc = update s.pc t.at serving })
  creates-Inv s t v h = record {
    count = v.count ∙ ap (λ m. pos (length (view s.threads.list) + ahead s.threads.locked m)) h;
    listed = λ j e. elim (update_cases s.pc t.at j serving) [
      | inl (same, u) ↦ inr same
      | inr (other, u) ↦ inl (old tl s (creating t) v h (λ p f. f) j (sym (ap is_serving u) ∙ e))
    ];
    held = λ e. v.held (ap holds_lock h);
    down = λ e. absurd (ground (arith, e));
    ending = tt;
    quiet = λ e j. elim (update_cases s.pc t.at j serving) [
      | inl (same, u) ↦ ap is_reader u
      | inr (other, u) ↦ ap is_reader u ∙ v.quiet e j
    ];
  }

  inserts-Inv :
      (s : System tl) (t : ClientThread)
      → Inv tl s
      → s.main ≡ created t
      → Inv tl (record s { threads = end_new_thread tl t s.threads; main = accepting })
  unfolding end_new_thread unlock
  inserts-Inv s t v h =
      let l = v.held (ap holds_lock h) in
      record {
        count = v.count ∙ rw (h, l, tl.view-insert_head s.threads.list t) (ap pos (omega arith));
        listed = λ j e. rw (tl.view-insert_head s.threads.list t) (elim (v.listed j e) [
          | inl in_list ↦ inl (inr in_list)
          | inr new ↦ inl (inl (subst (λ m. IsNew m j) h new))
        ]);
        held = λ e. absurd (ground (arith, e));
        down = λ e. absurd (ground (arith, e));
        ending = tt;
        quiet = v.quiet;
      }

  shuts-Inv :
      (s : System tl)
      → Inv tl s
      → s.main ≡ accepting
      → ((j : ℕ) → is_reader (s.pc j) ≡ false)
      → Inv tl (record s { state = server_shutdown; main = stopping })
  shuts-Inv s v h idle = record {
    count = v.count ∙ ap (λ m. pos (length (view s.threads.list) + ahead s.threads.locked m)) h;
    listed = λ j e. inl (old tl s accepting v h (λ p f. f) j e);
    held = λ e. absurd (ground (arith, e));
    down = λ e. refl;
    ending = tt;
    quiet = λ e. idle;
  }

  locks-Inv :
      (s : System tl) (ths : ClientThreads tl)
      → Inv tl s
      → s.main ≡ stopping
      → wrlock tl false s.threads ≡ returns ths
      → Inv tl (record s { threads = ths; main = joining (tl.first ths.list) })
  locks-Inv s ths v h w =
      let c = wrlock_lem tl false s.threads ths w in
      rw c.1 (record {
        count = v.count ∙ (rw (h, c.0) refl);
        listed = λ j e. inl (old tl s stopping v h (λ p f. f) j e);
        held = λ e. refl;
        down = λ e. v.down (ap is_down h);
        ending = tt;
        quiet = v.quiet;
      })

  -- A thread takes itself off the list, the lock being free.
  removes-Inv :
      (s : System tl) (i : ℕ) (ths : ClientThreads tl)
      → Inv tl s
      → s.pc i ≡ inside
      → remove_thread tl false i s.threads ≡ returns ths
      → Inv tl (record s { threads = ths; pc = update s.pc i removed })
  removes-Inv s i ths v h r =
      let c = remove_lem tl false i s.threads ths r in
      let l = erase_length i (view s.threads.list) (inside-Listed tl s i v h c.0) in
      rw c.1 (record {
        count = rw (tl.view-remove s.threads.list i) (
            count_down s.threads.n (length (view s.threads.list)) _ (ahead false s.main)
              (v.count ∙ (rw c.0 refl)) l);
        listed = λ j e. rw (tl.view-remove s.threads.list i) (elim (update_cases s.pc i j removed) [
          | inl (same, u) ↦ absurd (ground (arith, sym (ap is_serving u) ∙ e))
          | inr (other, u) ↦ inl (
              Listed-erase i j (view s.threads.list) other
                (Listed-free tl s j v (sym (ap is_serving u) ∙ e) c.0))
        ]);
        held = λ e. absurd (ground (arith, sym (v.held e) ∙ c.0));
        down = v.down;
        ending = elim (Bool-cases (is_down s.main)) [
          | inl e ↦ absurd (ground (arith, sym (ap is_reader h) ∙ v.quiet (v.down e) i))
          | inr e ↦ Ending-up s.main (view (tl.remove s.threads.list i)) e
        ];
        quiet = λ e j. absurd (ground (arith, sym (ap is_reader h) ∙ v.quiet e i));
      })

  -- `run_server` goes on to a place where it does not hold the lock, nor joins.
  out-Inv :
      (s : System tl) (m m' : MainPc)
      → Inv tl s
      → s.main ≡ m
      → is_joining m ≡ false
      → ((p : ℕ) → IsNew m p → ⊥)
      → is_joining m' ≡ false
      → holds_lock m' ≡ false
      → is_down m' ≡ false
      → Inv tl (record s { main = m' })
  out-Inv s m m' v h j f k l d =
      main-Inv tl s m' v (ap is_joining h ∙ j) k (λ p g. f p (subst (λ n. IsNew n p) h g))
        (λ e. absurd (ground (arith, e, l))) (λ e. absurd (ground (arith, e, d)))
        (Ending-up m' (view s.threads.list) d)

  Step-Inv : {s u : System tl} → Step tl s u → Inv tl s → Inv tl u
  Step-Inv {s} (begins t ths m p b) v = begins-Inv s t ths v m b
  Step-Inv {s} (creates t m) v = creates-Inv s t v m
  Step-Inv {s} (creates_nothing t m) v =
      out-Inv s (creating t) accepting v m refl (λ p f. f) refl refl refl
  Step-Inv {s} (inserts t m) v = inserts-Inv s t v m
  Step-Inv {s} (accept_fails m) v = out-Inv s accepting left v m refl (λ p f. f) refl refl refl
  Step-Inv {s} (shuts_down m idle) v = shuts-Inv s v m idle
  Step-Inv {s} (locks_list ths m w) v = locks-Inv s ths v m w
  Step-Inv {s} (deadlocks m d) v = out-Inv s accepting exited v m refl (λ p f. f) refl refl refl
  Step-Inv {s} (deadlocks_behind m d) v =
      out-Inv s stopping exited v m refl (λ p f. f) refl refl refl
  Step-Inv {s} (joins t follower m f e) v = joins-Inv tl s t follower v m f e
  Step-Inv {s} (joins_nothing m z) v = joined-Inv tl s v m z
  Step-Inv {s} (assert_fails m z) v = asserted-Inv tl s v m z
  Step-Inv {s} (exits j p) v = thread-Inv tl s j ended v (λ e. ap is_serving p) (λ e. refl)
  Step-Inv {s} (closes j p) v = thread-Inv tl s j leaving v (λ e. ap is_serving p) (λ e. refl)
  Step-Inv {s} (enters j p r) v =
      thread-Inv tl s j inside v (λ e. ap is_serving p) (λ e. absurd (ground (arith, e, r)))
  Step-Inv {s} (passes j p d) v = thread-Inv tl s j ended v (λ e. ap is_serving p) (λ e. refl)
  Step-Inv {s} (removes j ths p r) v = removes-Inv s j ths v p r
  Step-Inv {s} (unlocks j p) v =
      thread-Inv tl s j ended v (λ e. absurd (ground (arith, e))) (λ e. refl)

  pub Reach-Inv : {s u : System tl} → Inv tl s → Reach tl s u → Inv tl u
  Reach-Inv v here = v
  Reach-Inv v (next r a st) = Step-Inv st (Reach-Inv v r)
