-- ===== src/Db/Parallel.antt =====
-- db_parallel/src/db_parallel.c and req_interface/inc/db_request.h: N_SUBS simple databases, each with a thread that takes
-- its requests from a queue of its own (the queue on semaphores). Making and joining the threads is in Create:
-- a step of a thread is a step of the model.
pub mod Order
pub mod Create
pub mod Balance
use smtp_course_work.Base.{
  ℕ, zero, suc, Bool, true, false, Option, none, some, List, [], ◌∷◌, Outcome, done, abort, Status,
  success, failure, Bytes, ltb, ◌==◌, if◌then◌else◌,
}
use smtp_course_work.Kernel.{Call, returns, waits, aborts}
use smtp_course_work.QueueSem.{QueueSem, queue_sem_push, queue_sem_pop}
use smtp_course_work.Db.Tree.{RbTree}
use smtp_course_work.Db.Simple
use smtp_course_work.Db.Simple.{SimpleDb, copy_of, set_inst}
use smtp_course_work.Db.Hash.{string_hash}
use smtp_course_work.Db.Lock.{n_subs}

-- `struct db_request`; `is_get` is `result_func != NULL`, and `arg` names the connection that asks.
pub record Request : Type 0 where
  pub key : Option Bytes
  pub value : Option Bytes
  pub is_get : Bool
  pub arg : ℕ

-- The fields that `malloc` leaves unset are `old`'s.
unfoldable pub init_set_request : Bool → Bool → Request → Bytes → Option Bytes → Status × Request
init_set_request got_key got_value old key value =
    if got_key
    then (
      success,
      record {
        key = some key;
        value = elim value [ none ↦ none | some v ↦ copy_of got_value v ];
        is_get = false;
        arg = 0;
      },
    )
    else (failure, record old { key = none })

unfoldable pub init_get_request : Bool → Bytes → ℕ → Request
init_get_request got_key key arg = record {
  key = copy_of got_key key;
  value = none;
  is_get = true;
  arg = arg;
}

-- A call of `result_func`: the key, the value and the connection.
pub record Result : Type 0 where
  pub key : Bytes
  pub value : Option Bytes
  pub arg : ℕ

-- What one round of `db_thread` comes to.
pub data Round : Type 0 where
  stopped stored : Round
  answered : Result → Round

module _ (rb : RbTree) where
  -- `struct parallel_db`; the functions are meant for indices below `n_subs`.
  pub record ParallelDb : Type 0 where
    pub queues : ℕ → QueueSem Request
    pub subs : ℕ → SimpleDb rb

  unfoldable pub put_queue : ParallelDb → ℕ → QueueSem Request → ParallelDb
  put_queue db t queue = record db { queues = λ i. if t == i then queue else db.queues i }

  -- `get_queue` and the push; `none` is -1, where there is no memory for the request.
  unfoldable pub push_request : Bool → ParallelDb → Bytes → Request → Call (Status × ParallelDb)
  unfolding put_queue queue_sem_push
  push_request got db key request =
      let t = string_hash key in
      if ltb t n_subs
      then (if got
          then elim (queue_sem_push Request (db.queues t) (some request)) [
            | waits ↦ waits
            | aborts ↦ aborts
            | returns queue ↦ returns (success, put_queue db t queue)
          ]
          else returns (failure, db))
      else aborts

  unfoldable pub geta : Bool → Bool → ParallelDb → Bytes → ℕ → Call (Status × ParallelDb)
  unfolding push_request init_get_request
  geta got got_key db key arg = push_request got db key (init_get_request got_key key arg)

  -- The result of `init_set_request` is dropped.
  unfoldable pub set :
      Bool → Bool → Bool → Request → ParallelDb → Bytes → Option Bytes → Call (Status × ParallelDb)
  unfolding push_request init_set_request
  set got got_key got_value old db key value =
      push_request got db key (init_set_request got_key got_value old key value).1

  -- what `db_thread` does with a request; a NULL key is a fault in the search
  unfoldable pub serve : Bool → Bool → SimpleDb rb → Request → Outcome (Round × SimpleDb rb)
  unfolding Simple.get set_inst
  serve got_value got_node sub request = elim request.key [
    | none ↦ abort
    | some key ↦
        if request.is_get
        then elim (Simple.get rb got_value sub key) [
          | abort ↦ abort
          | done value ↦
              done (answered (record { key = key; value = value; arg = request.arg }), sub)
        ]
        else elim (set_inst rb got_node sub key request.value) [
          | abort ↦ abort
          | done (status, sub') ↦ done (stored, sub')
        ]
  ]

  -- One round of `db_thread` on its queue and database; NULL, which `stop` pushes, ends it.
  unfoldable pub thread_round :
      Bool → Bool → QueueSem Request → SimpleDb rb → Call (Round × QueueSem Request × SimpleDb rb)
  unfolding queue_sem_pop serve
  thread_round got_value got_node queue sub = elim (queue_sem_pop Request queue) [
    | waits ↦ waits
    | aborts ↦ aborts
    | returns (none, queue') ↦ returns (stopped, queue', sub)
    | returns (some request, queue') ↦ elim (serve got_value got_node sub request) [
      | abort ↦ aborts
      | done (round, sub') ↦ returns (round, queue', sub')
    ]
  ]
