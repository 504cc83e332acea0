-- ===== src/Stailq.antt =====
-- The tail queues of struct_bsd/inc/queue.h, a copy of BSD's sys/queue.h, as an interface: the macros
-- that the program calls, and what their manual page says of them in terms of the list of entries.
use smtp_course_work.Base.{◌≡◌, refl, Option, none, some, List, [], ◌∷◌, ◌++◌}

abbrev pub head_of {ℓ} : {A : Type ℓ} → List A → Option A
head_of [] = none
head_of (x ∷ xs) = some x

abbrev pub tail_of {ℓ} : {A : Type ℓ} → List A → List A
tail_of [] = []
tail_of (x ∷ xs) = xs

-- STAILQ_INIT, STAILQ_FIRST, STAILQ_INSERT_TAIL, STAILQ_REMOVE_HEAD. `STAILQ_EMPTY` is
-- `STAILQ_FIRST == NULL`. `view` is the list of the entries, from the first to the last.
pub record Stailq (A : Type 0) : Type 1 where
  pub Queue : Type 0
  pub view : Queue → List A
  pub init : Queue
  pub first : Queue → Option A
  pub insert_tail : Queue → A → Queue
  pub remove_head : Queue → Queue
  pub view-init : view init ≡ []
  pub first_lem : (q : Queue) → first q ≡ head_of (view q)
  pub view-insert_tail : (q : Queue) (a : A) → view (insert_tail q a) ≡ view q ++ a ∷ []
  pub view-remove_head : (q : Queue) → view (remove_head q) ≡ tail_of (view q)

-- Lists meet the interface.
abbrev pub list_stailq : (A : Type 0) → Stailq A
list_stailq A = record {
  Queue = List A;
  view = λ q. q;
  init = [];
  first = λ q. head_of q;
  insert_tail = λ q a. q ++ a ∷ [];
  remove_head = λ q. tail_of q;
  view-init = refl;
  first_lem = λ q. refl;
  view-insert_tail = λ q a. refl;
  view-remove_head = λ q. refl;
}
