-- ===== src/Db/Parallel/Balance.antt =====
-- What `init_parallel_db` has made when it fails is released.
use smtp_course_work.Base.{
  ℕ, zero, suc, ◌+◌, ◌≡◌, refl, sym, subst, ◌∙◌, Bool, true, false, List, [], ◌∷◌, ◌++◌, ltb, ◌==◌,
  if◌then◌else◌, arith, Bool-cases, inl, inr,
}
use smtp_course_work.Db.Parallel.Create.{
  Kind, db_made, queue_made, thread_made, thread_stopped, thread_joined, queue_freed, db_destroyed,
  Event, each, join_all, made, init_parallel_db, destroy_trds, destroy_reqs, destroy_dbs,
}

abbrev number : Kind → ℕ
number db_made = 0
number queue_made = 1
number thread_made = 2
number thread_joined = 3
number queue_freed = 4
number db_destroyed = 5
number thread_stopped = 6

abbrev is_event : Kind → ℕ → Event → Bool
is_event k i e = if number e.kind == number k then e.index == i else false

-- how often something is done
unfoldable pub times : Kind → ℕ → List Event → ℕ
times k i [] = 0
times k i (e ∷ t) = (if is_event k i e then 1 else 0) + times k i t

times-append :
    (k : Kind) (i : ℕ) (s t : List Event) → times k i (s ++ t) ≡ times k i s + times k i t
unfolding times
times-append k i [] t = omega arith
times-append k i (e ∷ s) t = omega (arith, times-append k i s t)

-- another kind
times-other : (k k' : Kind) (i n : ℕ) → (number k' == number k) ≡ false → times k i (each k' n) ≡ 0
unfolding times each
times-other k k' i zero h = refl
times-other k k' i (suc n) h =
    times-append k i (each k' n) (record { kind = k'; index = n } ∷ [])
    ∙ (rw (h, times-other k k' i n h) refl)

last :
    (i n : ℕ)
    → (if ltb i n then 1 else 0) + ((if n == i then 1 else 0) + 0)
      ≡ (if ltb i (suc n) then 1 else 0)
last i n = ground arith

times-each :
    (k k' : Kind) (i n : ℕ)
    → (number k' == number k) ≡ true
    → times k i (each k' n) ≡ (if ltb i n then 1 else 0)
unfolding times each
times-each k k' i zero h = ground arith
times-each k k' i (suc n) h =
    times-append k i (each k' n) (record { kind = k'; index = n } ∷ [])
    ∙ (rw (h, times-each k k' i n h) (last i n))

-- as often made as released, of each kind
abbrev pub Balanced : List Event → Type 0
Balanced t =
    (i : ℕ)
    → (times db_made i t ≡ times db_destroyed i t)
      × (times queue_made i t ≡ times queue_freed i t)
      × (times thread_made i t ≡ times thread_joined i t)
      × (times thread_made i t ≡ times thread_stopped i t)

-- the trace of a failure that has made so many databases, queues and threads
abbrev failure_trace : ℕ → ℕ → ℕ → List Event
failure_trace a b c =
    each db_made a
    ++ (each queue_made b
        ++ (each thread_made c ++ (join_all c ++ (each queue_freed b ++ each db_destroyed a))))

-- how often a loop up to a number does something
abbrev share : Kind → ℕ → Kind → ℕ → ℕ
share k i k' n = if number k' == number k then if ltb i n then 1 else 0 else 0

times-share : (k k' : Kind) (i n : ℕ) → times k i (each k' n) ≡ share k i k' n
times-share k k' i n = elim (Bool-cases (number k' == number k)) [
  | inl e ↦ rw e (times-each k k' i n e)
  | inr e ↦ rw e (times-other k k' i n e)
]

times-stop_join :
    (k : Kind) (i n : ℕ)
    → times k i (join_all n) ≡ times k i (each thread_stopped n) + times k i (each thread_joined n)
unfolding join_all each times
times-stop_join k i zero = refl
times-stop_join k i (suc n) =
    let stopped : Event = record { kind = thread_stopped; index = n } in
    let joined : Event = record { kind = thread_joined; index = n } in
    omega (
      arith,
      times-stop_join k i n,
      times-append k i (join_all n) (stopped ∷ joined ∷ []),
      times-append k i (each thread_stopped n) (stopped ∷ []),
      times-append k i (each thread_joined n) (joined ∷ []),
    )

times-join_all :
    (k : Kind) (i n : ℕ)
    → times k i (join_all n) ≡ share k i thread_stopped n + share k i thread_joined n
times-join_all k i n =
    times-stop_join k i n
    ∙ omega (arith, times-share k thread_stopped i n, times-share k thread_joined i n)

failure_times :
    (k : Kind) (i a b c : ℕ)
    → times k i (failure_trace a b c)
      ≡ share k i db_made a
        + (share k i queue_made b
            + (share k i thread_made c
                + ((share k i thread_stopped c + share k i thread_joined c)
                    + (share k i queue_freed b + share k i db_destroyed a))))
failure_times k i a b c =
    times-append k i (each db_made a) (
      each queue_made b
      ++ (each thread_made c ++ (join_all c ++ (each queue_freed b ++ each db_destroyed a))))
    ∙ omega (
      arith,
      times-append k i (each queue_made b)
          (each thread_made c ++ (join_all c ++ (each queue_freed b ++ each db_destroyed a))),
      times-append k i (each thread_made c)
          (join_all c ++ (each queue_freed b ++ each db_destroyed a)),
      times-append k i (join_all c) (each queue_freed b ++ each db_destroyed a),
      times-append k i (each queue_freed b) (each db_destroyed a),
      times-share k db_made i a,
      times-share k queue_made i b,
      times-share k thread_made i c,
      times-join_all k i c,
      times-share k queue_freed i b,
      times-share k db_destroyed i a,
    )

failure-Balanced : (a b c : ℕ) → Balanced (failure_trace a b c)
failure-Balanced a b c i = (
  failure_times db_made i a b c ∙ omega arith ∙ sym (failure_times db_destroyed i a b c),
  failure_times queue_made i a b c ∙ omega arith ∙ sym (failure_times queue_freed i a b c),
  failure_times thread_made i a b c ∙ omega arith ∙ sym (failure_times thread_joined i a b c),
  failure_times thread_made i a b c ∙ omega arith ∙ sym (failure_times thread_stopped i a b c),
)

destroy_trds_lem :
    (a b c : ℕ) → join_all c ++ (each queue_freed b ++ each db_destroyed a) ≡ destroy_trds c b a
unfolding destroy_trds destroy_reqs destroy_dbs
destroy_trds_lem a b c = refl

destroy_reqs_lem : (a b : ℕ) → each queue_freed b ++ each db_destroyed a ≡ destroy_reqs b a
unfolding destroy_reqs destroy_dbs
destroy_reqs_lem a b = refl

reqs-Balanced : (a b : ℕ) → Balanced (each db_made a ++ (each queue_made b ++ destroy_reqs b a))
unfolding each join_all
reqs-Balanced a b =
    subst (λ t. Balanced (each db_made a ++ (each queue_made b ++ t))) (destroy_reqs_lem a b)
      (failure-Balanced a b 0)

dbs-Balanced : (a : ℕ) → Balanced (each db_made a ++ destroy_dbs a)
unfolding each join_all destroy_dbs
dbs-Balanced a = failure-Balanced a 0 0

trds-Balanced :
    (a b c : ℕ)
    → Balanced (each db_made a ++ (each queue_made b ++ (each thread_made c ++ destroy_trds c b a)))
trds-Balanced a b c =
    subst (λ t. Balanced (each db_made a ++ (each queue_made b ++ (each thread_made c ++ t))))
      (destroy_trds_lem a b c) (failure-Balanced a b c)

-- Whichever of its calls fails, what `init_parallel_db` has made when it returns NULL it has released as often: each
-- database, each queue, and each thread, whose queue it has stopped and which it has joined.
pub init_parallel_db_lem :
    (n : ℕ) (db_ok queue_ok thread_ok : ℕ → Bool)
    → (init_parallel_db n db_ok queue_ok thread_ok).0 ≡ false
    → Balanced (init_parallel_db n db_ok queue_ok thread_ok).1
unfolding init_parallel_db
init_parallel_db_lem n db_ok queue_ok thread_ok h = elim (Bool-cases (made db_ok n == n)) [
  | inr a ↦ rw a (dbs-Balanced (made db_ok n))
  | inl a ↦ elim (Bool-cases (made queue_ok n == n)) [
    | inr b ↦ rw (a, b) (reqs-Balanced n (made queue_ok n))
    | inl b ↦ elim (Bool-cases (made thread_ok n == n)) [
      | inr c ↦ rw (a, b, c) (trds-Balanced n n (made thread_ok n))
      | inl c ↦ absurd (ground (arith, rw (a, b, c) at h))
    ]
  ]
]
