-- ===== src/Threads/Joining.antt =====
-- The steps of `join_threads` keep the invariant of the threaded server.
use smtp_course_work.Base.{
  ◌+◌, ◌≡◌, ◌≢◌, Option, none, List, [], ◌∷◌, ℤ, is_zeroℤ, inl, refl, sym, ap, ◌∙◌, subst, true,
  false, some, length, pos, arith,
}
use smtp_course_work.Threads.{ClientThread, ThreadsList, unlock, remove_thread_unsafe}
use smtp_course_work.Threads.Steps.{joining, finished, asserted, ended, Listed, System}
use smtp_course_work.Threads.Invariant.{
  is_serving, holds_lock, is_down, erase_length, Listed-erase, ended_serves, count_down, Inv,
}
use smtp_course_work.Threads.Locks.{old}

module _ (tl : ThreadsList) where
  open tl use {view}

  -- An entry is joined, whatever the next one reads as.
  pub joins-Inv :
      (s : System tl) (t : ClientThread) (follower : Option ClientThread)
      → Inv tl s
      → s.main ≡ joining (some t)
      → Listed t.at (view s.threads.list)
      → s.pc t.at ≡ ended
      → Inv tl
          (record s { threads = remove_thread_unsafe tl t.at s.threads; main = joining follower })
  unfolding remove_thread_unsafe
  joins-Inv s t follower v h f done_with =
      let l = erase_length t.at (view s.threads.list) f in
      record {
        count =
            rw (tl.view-remove s.threads.list t.at)
              (count_down s.threads.n (length (view s.threads.list)) _ 0 (v.count ∙ (rw h refl)) l);
        listed = λ j e. rw (tl.view-remove s.threads.list t.at) (
            inl (
              Listed-erase t.at j (view s.threads.list)
                (λ same.
                  ended_serves (subst (λ k. is_serving (s.pc k) ≡ true) (sym same) e) done_with)
                (old tl s (joining (some t)) v h (λ p g. g) j e)));
        held = λ e. v.held (ap holds_lock h);
        down = λ e. v.down (ap is_down h);
        ending = tt;
        quiet = v.quiet;
      }

  none_left : (n : ℤ) (l : List ClientThread) → n ≡ pos (length l + 0) → is_zeroℤ n ≡ true → l ≡ []
  none_left n [] c h = refl
  none_left n (t ∷ l) c h = absurd (ground (arith, sym (ap is_zeroℤ c) ∙ h))

  some_left : (n : ℤ) (l : List ClientThread) → n ≡ pos (length l + 0) → is_zeroℤ n ≡ false → l ≢ []
  some_left n [] c h e = absurd (ground (arith, sym (ap is_zeroℤ c) ∙ h))
  some_left n (t ∷ l) c h e = absurd (ground (arith, e))

  pub joined-Inv :
      (s : System tl)
      → Inv tl s
      → s.main ≡ joining none
      → is_zeroℤ s.threads.n ≡ true
      → Inv tl (record s { threads = unlock tl s.threads; main = finished })
  unfolding unlock
  joined-Inv s v h z = record {
    count = v.count ∙ (rw h refl);
    listed = λ j e. inl (old tl s (joining none) v h (λ p g. g) j e);
    held = λ e. absurd (ground (arith, e));
    down = λ e. v.down (ap is_down h);
    ending = none_left s.threads.n (view s.threads.list) (v.count ∙ (rw h refl)) z;
    quiet = v.quiet;
  }

  pub asserted-Inv :
      (s : System tl)
      → Inv tl s
      → s.main ≡ joining none
      → is_zeroℤ s.threads.n ≡ false
      → Inv tl (record s { main = asserted })
  asserted-Inv s v h z = record {
    count = v.count ∙ (rw h refl);
    listed = λ j e. inl (old tl s (joining none) v h (λ p g. g) j e);
    held = λ e. v.held (ap holds_lock h);
    down = λ e. v.down (ap is_down h);
    ending = some_left s.threads.n (view s.threads.list) (v.count ∙ (rw h refl)) z;
    quiet = v.quiet;
  }
