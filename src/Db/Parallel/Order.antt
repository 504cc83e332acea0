-- ===== src/Db/Parallel/Order.antt =====
-- A thread of the database serves its requests in the order in which they were pushed, as one map would.
use smtp_course_work.Base.{
  ℕ, zero, suc, ◌<◌, ◌≡◌, refl, sym, ap, ap₂, ◌∙◌, true, false, Option, none, some, List, [], ◌∷◌,
  done, success, Bytes, length, bytes_eq, if◌then◌else◌, arith, Bool-cases, inl, inr,
}
use smtp_course_work.Kernel.{Call, returns, waits, aborts}
use smtp_course_work.QueueSem.{QueueSem, queue_sem_pop}
use smtp_course_work.QueueSem.Fifo.{view, IsRing, length-view, queue_sem_pop_lem}
use smtp_course_work.Db.Tree.{RbTree}
use smtp_course_work.Db.Simple.{SimpleDb, set_inst}
use smtp_course_work.Db.Simple.Laws
use smtp_course_work.Db.Simple.Laws.{IsValid, has_memory, get_lem, set_lem, set_inst-eq-set}
use smtp_course_work.Db.Parallel.{Request, Result, stopped, stored, answered, serve, thread_round}

-- Every request before the first NULL has a key.
abbrev pub HaveKeys : List (Option Request) → Type 0
HaveKeys [] = Unit
HaveKeys (none ∷ l) = Unit
HaveKeys (some r ∷ l) = ((k : Bytes) × (r.key ≡ some k)) × HaveKeys l

abbrev pub key_of : Option Bytes → Bytes
key_of none = []
key_of (some k) = k

abbrev pub assign : (Bytes → Option Bytes) → Bytes → Option Bytes → Bytes → Option Bytes
assign m k v j = if bytes_eq k j then v else m j

-- What one map answers to the requests, up to the first NULL.
abbrev pub answers : List (Option Request) → (Bytes → Option Bytes) → List Result
answers [] m = []
answers (none ∷ l) m = []
answers (some r ∷ l) m =
    let after_get = answers l m in
    let after_set = answers l (assign m (key_of r.key) r.value) in
    if r.is_get
    then record { key = key_of r.key; value = m (key_of r.key); arg = r.arg } ∷ after_get
    else after_set

module _ (rb : RbTree) where
  -- What `db_thread` leaves after some rounds: the calls of `result_func`, the queue and the database.
  pub record Ran : Type 0 where
    pub results : List Result
    pub queue : QueueSem Request
    pub sub : SimpleDb rb

  -- a result in front of those of the rounds that follow
  unfoldable pub with_result : Result → Call Ran → Call Ran
  with_result r (returns ran) = returns (record ran { results = r ∷ ran.results })
  with_result r waits = waits
  with_result r aborts = aborts

  -- `db_thread` for a number of rounds, with memory
  unfoldable pub run_thread : ℕ → QueueSem Request → SimpleDb rb → Call Ran
  unfolding thread_round with_result
  run_thread zero queue sub = returns (record { results = []; queue = queue; sub = sub })
  run_thread (suc n) queue sub = elim (thread_round rb true true queue sub) [
    | waits ↦ waits
    | aborts ↦ aborts
    | returns (stopped, queue', sub') ↦
        returns (record { results = []; queue = queue'; sub = sub' })
    | returns (stored, queue', sub') ↦ run_thread n queue' sub'
    | returns (answered r, queue', sub') ↦ with_result r (run_thread n queue' sub')
  ]

  round_get :
      (queue queue' : QueueSem Request) (sub : SimpleDb rb) (r : Request) (k : Bytes)
      → IsValid rb sub
      → queue_sem_pop Request queue ≡ returns (some r, queue')
      → r.key ≡ some k
      → r.is_get ≡ true
      → thread_round rb true true queue sub
        ≡ returns
            (answered (record { key = k; value = Laws.view rb sub k; arg = r.arg }), queue', sub)
  unfolding thread_round serve
  round_get queue queue' sub r k v pop key is_get =
      rw (pop, key, is_get, get_lem rb sub k v, thread_round) refl

  round_set :
      (queue queue' : QueueSem Request) (sub sub' : SimpleDb rb) (r : Request) (k : Bytes)
      → queue_sem_pop Request queue ≡ returns (some r, queue')
      → r.key ≡ some k
      → r.is_get ≡ false
      → set_inst rb true sub k r.value ≡ done (success, sub')
      → thread_round rb true true queue sub ≡ returns (stored, queue', sub')
  unfolding thread_round serve
  round_set queue queue' sub sub' r k pop key is_get e = rw (pop, key, is_get, e, thread_round) refl

  round_stop :
      (queue queue' : QueueSem Request) (sub : SimpleDb rb)
      → queue_sem_pop Request queue ≡ returns (none, queue')
      → thread_round rb true true queue sub ≡ returns (stopped, queue', sub)
  unfolding thread_round
  round_stop queue queue' sub pop = rw (pop, thread_round) refl

  module _ (n : ℕ) where
    run_answer :
        (r : Result) (queue queue' : QueueSem Request) (sub sub' : SimpleDb rb)
        → thread_round rb true true queue sub ≡ returns (answered r, queue', sub')
        → run_thread (suc n) queue sub ≡ with_result r (run_thread n queue' sub')
    unfolding run_thread
    run_answer r queue queue' sub sub' h = rw (h, run_thread) refl

    run_stored :
        (queue queue' : QueueSem Request) (sub sub' : SimpleDb rb)
        → thread_round rb true true queue sub ≡ returns (stored, queue', sub')
        → run_thread (suc n) queue sub ≡ run_thread n queue' sub'
    unfolding run_thread
    run_stored queue queue' sub sub' h = rw (h, run_thread) refl

    run_stop :
        (queue queue' : QueueSem Request) (sub sub' : SimpleDb rb)
        → thread_round rb true true queue sub ≡ returns (stopped, queue', sub')
        → run_thread (suc n) queue sub
          ≡ returns (record { results = []; queue = queue'; sub = sub' })
    unfolding run_thread
    run_stop queue queue' sub sub' h = rw (h, run_thread) refl

  result_eq :
      (r : Request) (k : Bytes) (m : Bytes → Option Bytes) (o : Option Bytes)
      → r.key ≡ some k
      → o ≡ m k
      → ◌≡◌ {A = Result}
          (record { key = k; value = o; arg = r.arg })
          (record { key = key_of r.key; value = m (key_of r.key); arg = r.arg })
  result_eq r k m o key e =
      ap (λ v. record { key = k; value = v; arg = r.arg }) e
      ∙ ap (λ x. record { key = key_of x; value = m (key_of x); arg = r.arg }) (sym key)

  -- a pop of a queue whose entries are known
  pop_known :
      (queue : QueueSem Request) (e : Option Request) (l : List (Option Request))
      → IsRing Request queue
      → view Request queue ≡ e ∷ l
      → (queue' : QueueSem Request) × (queue_sem_pop Request queue ≡ returns (e, queue'))
        × (view Request queue' ≡ l)
        × IsRing Request queue'
  pop_known queue e l v h =
      let n : 0 < queue.empty = omega (arith, length-view Request queue, ap length h) in
      let p = (queue_sem_pop_lem Request queue v).1 n in
      let same : p.0 ∷ view Request p.1 ≡ e ∷ l = sym p.3 ∙ h in
      (p.1, p.2 ∙ ap (λ x. returns (x, p.1)) (ground (arith, same)), ground (arith, same), p.4)

  -- With the memory that it asks for, a thread whose queue holds requests that have keys serves them to the end or
  -- to the first NULL: its calls of `result_func` are, in their order, the answers of one map to the requests in
  -- the order in which they were pushed, the map being what its database held before.
  pub run_thread-answers :
      (l : List (Option Request)) (queue : QueueSem Request) (sub : SimpleDb rb)
      (m : Bytes → Option Bytes)
      → IsRing Request queue
      → view Request queue ≡ l
      → HaveKeys l
      → IsValid rb sub
      → ((j : Bytes) → Laws.view rb sub j ≡ m j)
      → (ran : Ran) × (run_thread (length l) queue sub ≡ returns ran)
        × (ran.results ≡ answers l m)
        × IsRing Request ran.queue
        × IsValid rb ran.sub
  unfolding run_thread with_result
  run_thread-answers [] queue sub m ring h keys v agree =
      (record { results = []; queue = queue; sub = sub }, refl, refl, ring, v)
  run_thread-answers (none ∷ l) queue sub m ring h keys v agree =
      let p = pop_known queue none l ring h in
      (
        record { results = []; queue = p.0; sub = sub },
        run_stop (length l) queue p.0 sub sub (round_stop queue p.0 sub p.1),
        refl,
        p.3,
        v,
      )
  run_thread-answers (some r ∷ l) queue sub m ring h keys v agree =
      let p = pop_known queue (some r) l ring h in
      elim (Bool-cases r.is_get) [
        | inl is_get ↦
            let ih = run_thread-answers l p.0 sub m p.3 p.2 keys.1 v agree in
            let result : Result = record {
              key = keys.0.0;
              value = Laws.view rb sub keys.0.0;
              arg = r.arg;
            } in
            (
              record ih.0 { results = result ∷ ih.0.results },
              run_answer (length l) result queue p.0 sub sub
                    (round_get queue p.0 sub r keys.0.0 v p.1 keys.0.1 is_get)
                  ∙ ap (with_result result) ih.1,
              rw is_get (
                  ap₂ (λ x xs. x ∷ xs)
                    (result_eq r keys.0.0 m (Laws.view rb sub keys.0.0) keys.0.1 (agree keys.0.0))
                    ih.2),
              ih.3,
              ih.4,
            )
        | inr is_set ↦
            let s = set_lem rb sub keys.0.0 r.value v in
            let ih =
              run_thread-answers l p.0 s.0 (assign m keys.0.0 r.value) p.3 p.2 keys.1 s.3
                (λ j. s.2 j ∙ ap (λ w. if bytes_eq keys.0.0 j then r.value else w) (agree j)) in
            (
              ih.0,
              run_stored (length l) queue p.0 sub s.0 (
                    round_set queue p.0 sub s.0 r keys.0.0 p.1 keys.0.1 is_set
                      (set_inst-eq-set rb true sub keys.0.0 r.value ∙ s.1))
                  ∙ ih.1,
              rw is_set (ih.2 ∙ ap (λ o. answers l (assign m (key_of o) r.value)) (sym keys.0.1)),
              ih.3,
              ih.4,
            )
      ]
