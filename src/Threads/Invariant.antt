-- ===== src/Threads/Invariant.antt =====
-- What holds in every state that the threaded server reaches.
use smtp_course_work.Base.{
  ℕ, suc, ◌+◌, ◌≡◌, ◌≢◌, ◌⊎◌, inl, inr, refl, ap, ◌∙◌, Bool, true, false, some, List, [], ◌∷◌,
  length, ◌==◌, if◌then◌else◌, ℤ, pos, sucℤ, predℤ, arith, Bool-cases,
}
use smtp_course_work.Threads.{ClientThread, erase_at, ThreadsList, ClientThreads, init_threads}
use smtp_course_work.Threads.Steps.{
  server_shutdown, MainPc, accepting, stopping, joining, finished, left, exited, asserted, creating,
  created, ThreadPc, serving, leaving, inside, ended, is_reader, Listed, update, System, started,
}

-- A thread that may still remove itself.
abbrev pub is_serving : ThreadPc → Bool
is_serving serving = true
is_serving leaving = true
is_serving inside = true
is_serving _ = false

-- A thread is made, but not yet in the list.
abbrev pub IsNew : MainPc → ℕ → Type 0
IsNew (created t) p = t.at ≡ p
IsNew _ p = ⊥

abbrev pub holds_lock : MainPc → Bool
holds_lock (creating t) = true
holds_lock (created t) = true
holds_lock (joining p) = true
holds_lock asserted = true
holds_lock _ = false

-- within `join_threads`, or ended by its assertion
abbrev pub is_joining : MainPc → Bool
is_joining (joining p) = true
is_joining asserted = true
is_joining _ = false

abbrev pub is_down : MainPc → Bool
is_down stopping = true
is_down (joining p) = true
is_down asserted = true
is_down finished = true
is_down _ = false

-- `join_threads` returns with no thread in the list, and its assertion fails with one in it.
abbrev pub Ending : MainPc → List ClientThread → Type 0
Ending finished l = l ≡ []
Ending asserted l = l ≢ []
Ending _ l = Unit

pub Ending-up : (m : MainPc) (l : List ClientThread) → is_down m ≡ false → Ending m l
Ending-up accepting l h = tt
Ending-up stopping l h = tt
Ending-up (joining p) l h = tt
Ending-up finished l h = absurd (ground (arith, h))
Ending-up left l h = tt
Ending-up exited l h = tt
Ending-up asserted l h = absurd (ground (arith, h))
Ending-up (creating t) l h = tt
Ending-up (created t) l h = tt

-- how far the count is ahead of the list: by the thread being made, or by one whose creation has failed
abbrev pub ahead : Bool → MainPc → ℕ
ahead locked main = if is_joining main then 0 else if locked then 1 else 0

pub erase_length :
    (p : ℕ) (l : List ClientThread) → Listed p l → length l ≡ suc (length (erase_at p l))
erase_length p [] h = absurd h
erase_length p (t ∷ ts) h = elim (Bool-cases (t.at == p)) [
  | inl e ↦ rw e refl
  | inr e ↦ elim h [
    | inl same ↦ absurd (ground (arith, e, same))
    | inr rest ↦ rw e (ap suc (erase_length p ts rest))
  ]
]

pub Listed-erase : (p j : ℕ) (l : List ClientThread) → p ≢ j → Listed j l → Listed j (erase_at p l)
Listed-erase p j [] ne h = h
Listed-erase p j (t ∷ ts) ne h = elim (Bool-cases (t.at == p)) [
  | inl e ↦ elim h [ inl same ↦ absurd (ne (ground (arith, e, same))) | inr rest ↦ rw e rest ]
  | inr e ↦ elim h [
    | inl same ↦ rw e (inl same)
    | inr rest ↦ rw e (inr (Listed-erase p j ts ne rest))
  ]
]

pub new_holds : (m : MainPc) (p : ℕ) → IsNew m p → holds_lock m ≡ true
new_holds accepting p h = elim h [ ]
new_holds stopping p h = elim h [ ]
new_holds (joining n) p h = elim h [ ]
new_holds exited p h = elim h [ ]
new_holds asserted p h = elim h [ ]
new_holds finished p h = elim h [ ]
new_holds left p h = elim h [ ]
new_holds (creating t) p h = elim h [ ]
new_holds (created t) p h = refl

pub ended_serves : {p : ThreadPc} → is_serving p ≡ true → p ≡ ended → ⊥
ended_serves {p} e h = ground (arith, e, h)

pub update_cases :
    (pc : ℕ → ThreadPc) (i j : ℕ) (a : ThreadPc)
    → ((i ≡ j) × (update pc i a j ≡ a)) ⊎ ((i ≢ j) × (update pc i a j ≡ pc j))
update_cases pc i j a = elim (Bool-cases (i == j)) [
  | inl same ↦ inl (ground (arith, same), rw same refl)
  | inr other ↦ inr (λ e. ground (arith, e, other), rw other refl)
]

pub count_up : (n : ℤ) (k : ℕ) → n ≡ pos (k + 0) → sucℤ n ≡ pos (k + 1)
count_up n k h = rw h (ap pos (omega arith))

pred_suc : (m k : ℕ) → m ≡ suc k → predℤ (pos m) ≡ pos k
pred_suc m k h = rw h refl

pub count_down : (n : ℤ) (k k' a : ℕ) → n ≡ pos (k + a) → k ≡ suc k' → predℤ n ≡ pos (k' + a)
count_down n k k' a h e = ap predℤ h ∙ pred_suc (k + a) (k' + a) (omega arith)

module _ (tl : ThreadsList) where
  open tl use {view}

  pub record Inv (s : System tl) : Type 0 where
    pub count : s.threads.n ≡ pos (length (view s.threads.list) + ahead s.threads.locked s.main)
    pub listed :
        (j : ℕ) → is_serving (s.pc j) ≡ true → Listed j (view s.threads.list) ⊎ IsNew s.main j
    pub held : holds_lock s.main ≡ true → s.threads.locked ≡ true
    pub down : is_down s.main ≡ true → s.state ≡ server_shutdown
    pub ending : Ending s.main (view s.threads.list)
    pub quiet : s.state ≡ server_shutdown → (j : ℕ) → is_reader (s.pc j) ≡ false

  count_start :
      (threads : ClientThreads tl)
      → threads ≡ record { n = pos 0; list = tl.init; locked = false }
      → threads.n ≡ pos (length (view threads.list) + (if threads.locked then 1 else 0))
  count_start threads h = rw (h, tl.view-init) refl

  pub started-Inv :
      (threads : ClientThreads tl) → init_threads tl true ≡ some threads → Inv (started tl threads)
  unfolding init_threads
  started-Inv threads h = record {
    count = count_start threads (ground (arith, h));
    listed = λ j e. absurd (ground (arith, e));
    held = λ e. absurd (ground (arith, e));
    down = λ e. absurd (ground (arith, e));
    ending = tt;
    quiet = λ e j. absurd (ground (arith, e));
  }
