-- ===== src/Log/Inputs.antt =====
-- `poll_inputs` of log_lib/src/process.c: the pipes of several redirections, read by one process.
use smtp_course_work.Base.{
  ℕ, zero, suc, ◌-◌, Bool, true, false, ◌&&◌, ◌||◌, not, Option, none, some, List, [], ◌∷◌, ◌++◌,
  Status, success, failure, Bytes, length, ltb, ◌==◌, if◌then◌else◌,
}
use smtp_course_work.Kernel.{Call, returns, waits, aborts, RecvReply}
use smtp_course_work.Log.{process_nonblock}

-- `poll_fds[i]`, whether its `fd` is not -1, with `buf[i]` and what has been processed of it
pub record Watched : Type 0 where
  pub active : Bool
  pub left : Bytes
  pub messages : List Bytes

-- `revents`: POLLIN, POLLHUP or POLLERR, others; and the answers to `read`
pub record InputEvents : Type 0 where
  pub readable : Bool
  pub hung_up : Bool
  pub other : Bool
  pub reads : List RecvReply

pub data PollAnswer : Type 0 where
  ready : ℕ → List InputEvents → PollAnswer
  interrupted poll_fails : PollAnswer

-- What a round leaves: the pipes, and `nfds`.
pub record Inputs : Type 0 where
  pub watched : List Watched
  pub nfds : ℕ

unfoldable pub has_input : Watched → InputEvents → Bool
has_input w e = w.active && (e.readable || e.hung_up || e.other)

module _ (got_copy : Bytes → Bool) (buf_size : ℕ) where
  -- what `process_nonblock` leaves of a pipe, and whether the pipe is closing
  unfoldable pub read_input : Watched → InputEvents → Call Bool × Watched
  unfolding process_nonblock
  read_input w e =
      if e.readable
      then (let p = process_nonblock got_copy buf_size w.left e.reads in
          (p.closing, record w { left = p.left; messages = w.messages ++ p.messages }))
      else (returns false, w)

  -- the body of the loop over the pipes, for one that has events: whether it closes, and the pipe
  unfoldable pub poll_input : Watched → InputEvents → Call (Bool × Watched)
  unfolding read_input
  poll_input w e = elim (read_input w e).0 [
    | waits ↦ waits
    | aborts ↦ aborts
    | returns c ↦
        let closing = c || e.hung_up in
        returns
          (closing, record (read_input w e).1 { active = (read_input w e).1.active && not closing })
  ]

  -- a pipe in front of those that come behind it; the count `nevents` is that of the events still to come
  unfoldable pub poll_round : ℕ → List Watched → List InputEvents → ℕ → Call Inputs
  unfolding has_input poll_input
  poll_round nevents [] events nfds = returns (record { watched = []; nfds = nfds })
  poll_round nevents (w ∷ ws) [] nfds = returns (record { watched = w ∷ ws; nfds = nfds })
  poll_round zero (w ∷ ws) (e ∷ events) nfds = returns (record { watched = w ∷ ws; nfds = nfds })
  poll_round (suc n) (w ∷ ws) (e ∷ events) nfds =
      if has_input w e
      then elim (poll_input w e) [
        | waits ↦ waits
        | aborts ↦ aborts
        | returns (closing, w') ↦
            elim (poll_round n ws events (if closing then nfds - 1 else nfds)) [
              | waits ↦ waits
              | aborts ↦ aborts
              | returns r ↦ returns (record r { watched = w' ∷ r.watched })
            ]
      ]
      else elim (poll_round (suc n) ws events nfds) [
        | waits ↦ waits
        | aborts ↦ aborts
        | returns r ↦ returns (record r { watched = w ∷ r.watched })
      ]

  -- the loop `while (nfds > 0)`
  unfoldable pub poll_loop : List PollAnswer → Inputs → Call (Status × Inputs)
  unfolding poll_round
  poll_loop [] i = if i.nfds == 0 then returns (success, i) else waits
  poll_loop (interrupted ∷ ps) i =
      let rest = poll_loop ps i in if i.nfds == 0 then returns (success, i) else rest
  poll_loop (poll_fails ∷ ps) i = if i.nfds == 0 then returns (success, i) else returns (failure, i)
  poll_loop (ready n events ∷ ps) i =
      if i.nfds == 0
      then returns (success, i)
      else if ltb i.nfds n
      then aborts
      else elim (poll_round n i.watched events i.nfds) [
        | waits ↦ waits
        | aborts ↦ aborts
        | returns i' ↦ poll_loop ps i'
      ]

-- `nonblocking` tells of each pipe whether `set_nonblock` succeeds.
unfoldable pub watch_all : List Bool → Option (List Watched)
watch_all [] = some []
watch_all (ok ∷ oks) =
    let rest = watch_all oks in
    if ok
    then elim rest [
      | none ↦ none
      | some ws ↦ some (record { active = true; left = []; messages = [] } ∷ ws)
    ]
    else none

module _ (got_copy : Bytes → Bool) (buf_size : ℕ) where
  unfoldable pub poll_inputs : List Bool → List PollAnswer → Call (Status × Inputs)
  unfolding watch_all poll_loop
  poll_inputs nonblocking ps = elim (watch_all nonblocking) [
    | none ↦ returns (failure, record { watched = []; nfds = 0 })
    | some ws ↦ poll_loop got_copy buf_size ps (record { watched = ws; nfds = length nonblocking })
  ]
