-- ===== src/QueueCnd.antt =====
-- req_queue_cnd/src/req_queue.c and req_queue_cnd.c: the queue of requests on a condition variable. What a function does
-- with the mutex held is one step; `waits` is `pthread_cond_wait`, after which the loop of `pop` starts again.
pub mod Fifo
use smtp_course_work.Base.{
  ℕ, zero, suc, Bool, true, false, ◌&&◌, not, Option, none, some, List, [], ◌∷◌, length,
  if◌then◌else◌,
}
use smtp_course_work.Stailq.{Stailq}
use smtp_course_work.Kernel.{Call, returns, waits}

module _ {A : Type 0} (sq : Stailq A) where
  open sq use {Queue, view, init, first, insert_tail, remove_head}

  unfoldable pub init_requests_queue : Queue
  init_requests_queue = init

  unfoldable pub queue_request : Queue → A → Queue
  queue_request queue request = insert_tail queue request

  -- `none` is NULL.
  unfoldable pub unqueue_request : Queue → Option A × Queue
  unqueue_request queue = (first queue, remove_head queue)

  unfoldable pub no_requests : Queue → Bool
  no_requests queue = elim (first queue) [ none ↦ true | some r ↦ false ]

  -- `struct cnd_db_queue`
  pub record CndQueue : Type 0 where
    pub queue : Queue
    pub local_queue : Queue
    pub running : Bool

  unfoldable pub init_cnd_db_queue : CndQueue
  unfolding init_requests_queue
  init_cnd_db_queue = record {
    queue = init_requests_queue;
    local_queue = init_requests_queue;
    running = true;
  }

  unfoldable pub push_cnd : CndQueue → A → CndQueue
  unfolding queue_request
  push_cnd q request = record q { queue = queue_request q.queue request }

  unfoldable pub stop_cnd : CndQueue → CndQueue
  stop_cnd q = record q { running = false }

  -- `while (!no_requests(&queue->queue)) queue_request(local, unqueue_request(...))`
  unfoldable pub move_loop : ℕ → Queue → Queue → Queue × Queue
  unfolding queue_request
  move_loop zero queue local = (queue, local)
  move_loop (suc fuel) queue local = elim (first queue) [
    | none ↦ (queue, local)
    | some r ↦ move_loop fuel (remove_head queue) (queue_request local r)
  ]

  -- One round for each request.
  unfoldable pub move_all : CndQueue → CndQueue
  unfolding move_loop
  move_all q =
      let (queue, local) = move_loop (length (view q.queue)) q.queue q.local_queue in
      record q { queue = queue; local_queue = local }

  -- The loop of `pop`, with the variable `running`.
  unfoldable pub pop_loop : ℕ → Bool → CndQueue → Call (Option A × CndQueue)
  unfolding no_requests move_all
  pop_loop zero running q = waits
  pop_loop (suc fuel) running q =
      let again = pop_loop fuel q.running (move_all q) in
      elim (first q.local_queue) [
        | some r ↦ returns (some r, record q { local_queue = remove_head q.local_queue })
        | none ↦
            if not running && no_requests q.queue
            then returns (none, q)
            else if q.running && no_requests q.queue
            then waits
            else again
      ]

  -- Two rounds: the second finds a request or the end.
  unfoldable pub pop_cnd : CndQueue → Call (Option A × CndQueue)
  unfolding pop_loop
  pop_cnd q = pop_loop 2 true q
