-- ===== src/QueueCnd/Fifo.antt =====
-- The two queues behind the condition variable are one queue: first in, first out, drained after a stop.
use smtp_course_work.Base.{
  ℕ, suc, ◌≡◌, refl, sym, ap, ap₂, ◌∙◌, Bool, true, false, ◌&&◌, not, Option, none, some, List, [],
  ◌∷◌, ◌++◌, length, append-nil, append_assoc, if◌then◌else◌, Bool-cases, List-cases, inl, inr,
}
use smtp_course_work.Stailq.{Stailq, head_of, tail_of}
use smtp_course_work.Kernel.{Call, returns, waits}
use smtp_course_work.QueueCnd.{
  CndQueue, queue_request, no_requests, push_cnd, stop_cnd, move_loop, move_all, pop_loop, pop_cnd,
}

module _ {A : Type 0} (sq : Stailq A) where
  open sq use {Queue, view, first, remove_head, first_lem, view-insert_tail, view-remove_head}

  -- The requests that wait: those already moved, then the others.
  unfoldable pub waiting : CndQueue sq → List A
  waiting q = view q.local_queue ++ view q.queue

  view-move_loop :
      (l : List A) (queue local : Queue)
      → view queue ≡ l
      → (view (move_loop sq (length l) queue local).0 ≡ [])
        × (view (move_loop sq (length l) queue local).1 ≡ view local ++ l)
  unfolding move_loop queue_request
  view-move_loop [] queue local h = (h, sym (append-nil (view local)))
  view-move_loop (x ∷ l) queue local h =
      let here : first queue ≡ some x = first_lem queue ∙ ap head_of h in
      let ih =
        view-move_loop l (remove_head queue) (sq.insert_tail local x)
          (view-remove_head queue ∙ ap tail_of h) in
      rw here (
        ih.0,
        ih.1 ∙ ap (λ r. r ++ l) (view-insert_tail local x) ∙ append_assoc (view local) (x ∷ []) l,
      )

  -- What a pop leaves, by the requests that wait and whether the queue runs.
  pub data Popped (q : CndQueue sq) : List A → Call (Option A × CndQueue sq) → Type 0 where
    some_waits :
        (r : A) (l : List A) (q' : CndQueue sq)
        → waiting q' ≡ l
        → q'.running ≡ q.running
        → Popped q (r ∷ l) (returns (some r, q'))
    none_running : q.running ≡ true → Popped q [] waits
    none_stopped :
        (q' : CndQueue sq) → q.running ≡ false → waiting q' ≡ [] → Popped q [] (returns (none, q'))

  module _ (q : CndQueue sq) where
    waiting_eq : (l m : List A) → view q.local_queue ≡ l → view q.queue ≡ m → waiting q ≡ l ++ m
    unfolding waiting
    waiting_eq l m e f = ap₂ (λ a b. a ++ b) e f

    no_requests-nil : view q.queue ≡ [] → no_requests sq q.queue ≡ true
    unfolding no_requests
    no_requests-nil e =
        let here : first q.queue ≡ none = first_lem q.queue ∙ ap head_of e in
        rw (here, no_requests) refl

    no_requests-cons : (x : A) (l : List A) → view q.queue ≡ x ∷ l → no_requests sq q.queue ≡ false
    unfolding no_requests
    no_requests-cons x l e =
        let here : first q.queue ≡ some x = first_lem q.queue ∙ ap head_of e in
        rw (here, no_requests) refl

    pop_loop-local :
        (fuel : ℕ) (running : Bool) (r : A) (l : List A)
        → view q.local_queue ≡ r ∷ l
        → pop_loop sq (suc fuel) running q
          ≡ returns (some r, record q { local_queue = remove_head q.local_queue })
    unfolding pop_loop
    pop_loop-local fuel running r l e =
        let here : first q.local_queue ≡ some r = first_lem q.local_queue ∙ ap head_of e in
        rw (here, pop_loop) refl

    -- with nothing moved yet, by whether there are requests and whether the queue runs
    pop_loop-empty :
        (fuel : ℕ) (running more : Bool)
        → view q.local_queue ≡ []
        → no_requests sq q.queue ≡ not more
        → pop_loop sq (suc fuel) running q ≡ (
            if not running && not more
            then returns (none, q)
            else if q.running && not more
            then waits
            else pop_loop sq fuel q.running (move_all sq q))
    unfolding pop_loop
    pop_loop-empty fuel running more e f =
        let here : first q.local_queue ≡ none = first_lem q.local_queue ∙ ap head_of e in
        rw (here, f, pop_loop) refl

    moved :
        (l : List A)
        → view q.local_queue ≡ []
        → view q.queue ≡ l
        → (view (move_all sq q).queue ≡ []) × (view (move_all sq q).local_queue ≡ l)
    unfolding move_all
    moved l e f =
        let m = view-move_loop (view q.queue) q.queue q.local_queue refl in
        (m.0, m.1 ∙ ap₂ (λ a b. a ++ b) e f)

    Popped-as :
        (l : List A) (c : Call (Option A × CndQueue sq))
        → waiting q ≡ l
        → pop_cnd sq q ≡ c
        → Popped q l c
        → Popped q (waiting q) (pop_cnd sq q)
    Popped-as l c e f p = rw (e, f) p

  not_both : (b : Bool) {B : Type 0} (x y : B) → (if b && false then x else y) ≡ y
  not_both true x y = refl
  not_both false x y = refl

  pop_running :
      (q : CndQueue sq)
      → view q.local_queue ≡ []
      → view q.queue ≡ []
      → q.running ≡ true
      → pop_cnd sq q ≡ waits
  unfolding pop_cnd
  pop_running q e f b = pop_loop-empty q 1 true false e (no_requests-nil q f) ∙ (rw b refl)

  pop_stopped :
      (q : CndQueue sq)
      → view q.local_queue ≡ []
      → view q.queue ≡ []
      → q.running ≡ false
      → pop_cnd sq q ≡ returns (none, move_all sq q)
  unfolding pop_cnd
  pop_stopped q e f b =
      let m = moved q [] e f in
      pop_loop-empty q 1 true false e (no_requests-nil q f)
      ∙ (rw b refl)
      ∙ pop_loop-empty (move_all sq q) 0 q.running false m.1 (no_requests-nil (move_all sq q) m.0)
      ∙ (rw b refl)

  pop_empty :
      (q : CndQueue sq)
      → view q.local_queue ≡ []
      → view q.queue ≡ []
      → Popped q (waiting q) (pop_cnd sq q)
  pop_empty q e f = elim (Bool-cases q.running) [
    | inl b ↦ Popped-as q [] waits (waiting_eq q [] [] e f) (pop_running q e f b) (none_running b)
    | inr b ↦
        let m = moved q [] e f in
        Popped-as q [] (returns (none, move_all sq q)) (waiting_eq q [] [] e f)
          (pop_stopped q e f b)
          (none_stopped (move_all sq q) b (waiting_eq (move_all sq q) [] [] m.1 m.0))
  ]

  -- the queue with its first local request taken
  abbrev taken : CndQueue sq → CndQueue sq
  taken q = record q { local_queue = remove_head q.local_queue }

  waiting-taken :
      (q : CndQueue sq) (r : A) (l m : List A)
      → view q.local_queue ≡ r ∷ l
      → view q.queue ≡ m
      → waiting (taken q) ≡ l ++ m
  waiting-taken q r l m e f =
      waiting_eq (taken q) l m (view-remove_head q.local_queue ∙ ap tail_of e) f

  running-move_all : (q : CndQueue sq) → (move_all sq q).running ≡ q.running
  unfolding move_all
  running-move_all q = refl

  pop_moved :
      (q : CndQueue sq) (x : A) (l : List A)
      → view q.local_queue ≡ []
      → view q.queue ≡ x ∷ l
      → Popped q (waiting q) (pop_cnd sq q)
  unfolding pop_cnd
  pop_moved q x l e f =
      let m = moved q (x ∷ l) e f in
      let again = pop_loop sq 1 q.running (move_all sq q) in
      Popped-as q (x ∷ l) (returns (some x, taken (move_all sq q))) (waiting_eq q [] (x ∷ l) e f)
        (pop_loop-empty q 1 true true e (no_requests-cons q x l f)
          ∙ not_both q.running waits again
          ∙ pop_loop-local (move_all sq q) 0 q.running x l m.1)
        (some_waits x l (taken (move_all sq q))
          (waiting-taken (move_all sq q) x l [] m.1 m.0 ∙ append-nil l) (running-move_all q))

  pop_local :
      (q : CndQueue sq) (r : A) (l : List A)
      → view q.local_queue ≡ r ∷ l
      → Popped q (waiting q) (pop_cnd sq q)
  unfolding pop_cnd
  pop_local q r l e =
      Popped-as q (r ∷ (l ++ view q.queue)) (returns (some r, taken q))
        (waiting_eq q (r ∷ l) (view q.queue) e refl) (pop_loop-local q 1 true r l e)
        (some_waits r (l ++ view q.queue) (taken q) (waiting-taken q r l (view q.queue) e refl)
          refl)

  -- A pop returns the first of the requests that wait, also after a stop, and leaves the others in their order; where
  -- none waits, it waits itself while the queue runs and returns NULL after a stop.
  pub pop_cnd-Popped : (q : CndQueue sq) → Popped q (waiting q) (pop_cnd sq q)
  pop_cnd-Popped q = elim (List-cases (view q.local_queue)) [
    | inr (r, l, e) ↦ pop_local q r l e
    | inl e ↦ elim (List-cases (view q.queue)) [
      | inl f ↦ pop_empty q e f
      | inr (x, l, f) ↦ pop_moved q x l e f
    ]
  ]

  -- A push puts the request behind those that wait; a stop keeps them all.
  pub push_stop_lem :
      (q : CndQueue sq) (r : A)
      → (waiting (push_cnd sq q r) ≡ waiting q ++ r ∷ []) × (waiting (stop_cnd sq q) ≡ waiting q)
  unfolding waiting push_cnd stop_cnd queue_request
  push_stop_lem q r = (
    ap (λ l. view q.local_queue ++ l) (view-insert_tail q.queue r)
        ∙ sym (append_assoc (view q.local_queue) (view q.queue) (r ∷ [])),
    refl,
  )
