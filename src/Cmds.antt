-- ===== src/Cmds.antt =====
-- server_lib/src/cmds.c: the commands of the protocol, over the database interface (db_virtual.h).
pub mod Session
pub mod Locked
use smtp_course_work.Base.{
  ℕ, zero, suc, ◌+◌, Bool, true, false, Option, none, some, List, [], ◌∷◌, Outcome, done, abort,
  ◌>>=◌, Bytes, ◌==◌, if◌then◌else◌,
}
use smtp_course_work.Cnct.{Cnct, inc_queue_cnt}

-- `struct vdb`, the operations that the protocol calls; `none` is a NULL pointer. `has_async` is
-- `async_result != NULL`. The results of `set` and `geta` are dropped by the caller.
pub record Vdb (S : Type 0) : Type 0 where
  pub get : Option (S → Bytes → Outcome (Option Bytes))
  pub set : S → Bytes → Option Bytes → Outcome S
  pub geta : Option (S → Bytes → Outcome S)
  pub has_async : Bool

-- `strchr(s, ' ')`: the parts before and behind the first space
unfoldable pub split_space : Bytes → Option (Bytes × Bytes)
split_space [] = none
split_space (c ∷ s) =
    let rest = split_space s in
    if c == b' '
    then some ([], s)
    else elim rest [ none ↦ none | some (key, value) ↦ some (c ∷ key, value) ]

-- What `process_cmd` leaves: the answer or NULL, `*to_send`, the database, and the connection that
-- `arg` belongs to, if it is not NULL.
pub record CmdResult (S : Type 0) : Type 0 where
  pub answer : Option Bytes
  pub to_send : Bool
  pub db : S
  pub arg : Option Cnct

module _ {S : Type 0} (vdb : Vdb S) where
  -- `=key value`
  unfoldable pub cmd_set : Bytes → S → Option Cnct → Outcome (CmdResult S)
  cmd_set rest db arg = elim (split_space rest) [
    | none ↦ done (record { answer = none; to_send = true; db = db; arg = arg })
    | some (key, value) ↦ elim (vdb.set db key (some value)) [
      | abort ↦ abort
      | done db' ↦ done (record { answer = none; to_send = true; db = db'; arg = arg })
    ]
  ]

  -- `before_async_get`, which every connection sets to `inc_queue_cnt`
  unfoldable pub notify : Option Cnct → Outcome (Option Cnct)
  notify none = done none
  notify (some c) = elim (inc_queue_cnt c) [ abort ↦ abort | done c' ↦ done (some c') ]

  -- `?key`; a missing function is an assertion that fails.
  unfoldable pub cmd_get : Bytes → S → Option Cnct → Outcome (CmdResult S)
  unfolding notify
  cmd_get key db arg =
      if vdb.has_async
      then elim vdb.geta [
        | none ↦ abort
        | some geta ↦ elim (notify arg) [
          | abort ↦ abort
          | done arg' ↦ elim (geta db key) [
            | abort ↦ abort
            | done db' ↦ done (record { answer = none; to_send = false; db = db'; arg = arg' })
          ]
        ]
      ]
      else elim vdb.get [
        | none ↦ abort
        | some get ↦ elim (get db key) [
          | abort ↦ abort
          | done value ↦ done (record { answer = value; to_send = true; db = db; arg = arg })
        ]
      ]

  -- `-key`
  unfoldable pub cmd_drop : Bytes → S → Option Cnct → Outcome (CmdResult S)
  cmd_drop key db arg = elim (vdb.set db key none) [
    | abort ↦ abort
    | done db' ↦ done (record { answer = none; to_send = true; db = db'; arg = arg })
  ]

  -- `request` is a C string, so that it is empty where `request[0]` is NUL. `*to_send` is 1 on every
  -- path but the asynchronous get.
  unfoldable pub process_cmd : Bytes → S → Option Cnct → Outcome (CmdResult S)
  unfolding cmd_set cmd_get cmd_drop
  process_cmd [] db arg = done (record { answer = none; to_send = true; db = db; arg = arg })
  process_cmd (c ∷ rest) db arg =
      if c == b'='
      then cmd_set rest db arg
      else if c == b'?'
      then cmd_get rest db arg
      else if c == b'-'
      then cmd_drop rest db arg
      else done (record { answer = none; to_send = true; db = db; arg = arg })
