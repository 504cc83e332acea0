-- ===== src/Db/Parallel/Create.antt =====
-- `init_parallel_db` and `destroy` of db_parallel/src/db_parallel.c: what they make and release, in its order.
use smtp_course_work.Base.{
  ℕ, zero, suc, Bool, true, false, List, [], ◌∷◌, ◌++◌, ◌==◌, if◌then◌else◌,
}

-- What is made or released: a database, a queue of requests, a thread; a thread's queue is stopped, and the thread joined.
pub data Kind : Type 0 where
  db_made queue_made thread_made thread_stopped thread_joined queue_freed db_destroyed : Kind

pub record Event : Type 0 where
  pub kind : Kind
  pub index : ℕ

-- a loop from 0 up to a number
unfoldable pub each : Kind → ℕ → List Event
each k zero = []
each k (suc n) = each k n ++ record { kind = k; index = n } ∷ []

-- How far a loop comes that stops where its call fails: from `i` on, with so many rounds left.
unfoldable pub made_from : (ℕ → Bool) → ℕ → ℕ → ℕ
made_from ok i zero = i
made_from ok i (suc left) = let rest = made_from ok (suc i) left in if ok i then rest else i

unfoldable pub made : (ℕ → Bool) → ℕ → ℕ
unfolding made_from
made ok n = made_from ok 0 n

-- the loop that stops the queue of each thread and then joins the thread
unfoldable pub join_all : ℕ → List Event
join_all zero = []
join_all (suc n) =
    join_all n
    ++ record { kind = thread_stopped; index = n } ∷ record { kind = thread_joined; index = n } ∷ []

-- the labels `destroy_trds`, `destroy_reqs` and `destroy_dbs`, each of which goes on to the next
unfoldable pub destroy_dbs : ℕ → List Event
unfolding each
destroy_dbs ndbs = each db_destroyed ndbs

unfoldable pub destroy_reqs : ℕ → ℕ → List Event
unfolding each destroy_dbs
destroy_reqs nreqs ndbs = each queue_freed nreqs ++ destroy_dbs ndbs

unfoldable pub destroy_trds : ℕ → ℕ → ℕ → List Event
unfolding join_all destroy_reqs
destroy_trds ntrds nreqs ndbs = join_all ntrds ++ destroy_reqs nreqs ndbs

-- `n` is N_SUBS; the functions tell which of the calls that make a database, a queue and a thread succeed. The result
-- is whether there is a database, and what has been done.
unfoldable pub init_parallel_db : ℕ → (ℕ → Bool) → (ℕ → Bool) → (ℕ → Bool) → Bool × List Event
unfolding made each destroy_trds destroy_reqs destroy_dbs
init_parallel_db n db_ok queue_ok thread_ok =
    let ndbs = made db_ok n in
    let nreqs = made queue_ok n in
    let ntrds = made thread_ok n in
    if ndbs == n
    then if nreqs == n
      then if ntrds == n
        then (true, each db_made n ++ each queue_made n ++ each thread_made n)
        else (
          false,
          each db_made n
              ++ (each queue_made n ++ (each thread_made ntrds ++ destroy_trds ntrds n n)),
        )
      else (false, each db_made n ++ (each queue_made nreqs ++ destroy_reqs nreqs n))
    else (false, each db_made ndbs ++ destroy_dbs ndbs)

-- a database with its queue
unfoldable pub free_pairs : ℕ → List Event
free_pairs zero = []
free_pairs (suc n) =
    free_pairs n
    ++ record { kind = db_destroyed; index = n } ∷ record { kind = queue_freed; index = n } ∷ []

unfoldable pub destroy : ℕ → List Event
unfolding join_all free_pairs
destroy n = join_all n ++ free_pairs n
