-- ===== src/Db/Lock.antt =====
-- db_lock/src/db_lock.c: N_SUBS simple databases, each behind a read-write lock; a key's hash chooses. The
-- locks are taken and released within each operation and always granted, so that the operations
-- follow one another.
pub mod Laws
use smtp_course_work.Base.{
  ℕ, Bool, true, false, Option, none, some, Outcome, done, abort, Status, success, failure, Bytes,
  ltb, ◌==◌, if◌then◌else◌,
}
use smtp_course_work.Db.Tree.{RbTree}
use smtp_course_work.Db.Simple
use smtp_course_work.Db.Simple.{SimpleDb, Allocs, init_simple_db}
use smtp_course_work.Db.Hash.{string_hash}

abbrev pub n_subs : ℕ
n_subs = 0x0ff

module _ (rb : RbTree) where
  -- `struct lock_db` without its locks; `subs i` is meant for `i < n_subs`.
  pub record LockDb : Type 0 where
    pub subs : ℕ → SimpleDb rb

  unfoldable pub init_lock_db : LockDb
  init_lock_db = record { subs = λ i. init_simple_db rb }

  unfoldable pub put_sub : LockDb → ℕ → SimpleDb rb → LockDb
  put_sub db t sub = record { subs = λ i. if t == i then sub else db.subs i }

  -- The assertion on `t` comes before the lock is taken.
  unfoldable pub get : Bool → LockDb → Bytes → Outcome (Option Bytes)
  get got db key =
      let t = string_hash key in if ltb t n_subs then Simple.get rb got (db.subs t) key else abort

  -- The result of the inner `set` is dropped: the outer one is always 0.
  unfoldable pub set : Allocs → LockDb → Bytes → Option Bytes → Outcome (Status × LockDb)
  unfolding put_sub
  set got db key value =
      let t = string_hash key in
      if ltb t n_subs
      then elim (Simple.set rb got (db.subs t) key value) [
        | abort ↦ abort
        | done (result, sub) ↦ done (success, put_sub db t sub)
      ]
      else abort

  -- The arguments of the call of `async_result`, or -1.
  unfoldable pub geta :
      Bool → Bool → LockDb → Bytes → Outcome (Status × Option (Bytes × Option Bytes))
  unfolding get
  geta got_value got_key db key = elim (get got_value db key) [
    | abort ↦ abort
    | done value ↦ if got_key then done (success, some (key, value)) else done (failure, none)
  ]
