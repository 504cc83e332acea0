-- ===== src/Cmds/Locked.antt =====
-- The database of db_lock.c as the commands use it, without an asynchronous result.
use smtp_course_work.Base.{◌<◌, ◌≡◌, refl, true, Option, none, success, Outcome, done, abort, Bytes}
use smtp_course_work.Db.Tree.{RbTree}
use smtp_course_work.Db.Simple.Laws.{has_memory}
use smtp_course_work.Db.Hash.{string_hash}
use smtp_course_work.Db.Lock
use smtp_course_work.Db.Lock.{LockDb, n_subs}
use smtp_course_work.Db.Lock.Laws.{IsValid, view, get-set_lem}
use smtp_course_work.Cmds.Session.{MapDb}

module _ (rb : RbTree) where
  -- `set` for a caller that drops the result
  unfoldable pub set_dropped : LockDb rb → Bytes → Option Bytes → Outcome (LockDb rb)
  set_dropped db key value = elim (Lock.set rb has_memory db key value) [
    | abort ↦ abort
    | done (status, db') ↦ done db'
  ]

  pub set_dropped_lem :
      (db db' : LockDb rb) (key : Bytes) (value : Option Bytes)
      → Lock.set rb has_memory db key value ≡ done (success, db')
      → set_dropped db key value ≡ done db'
  unfolding set_dropped
  set_dropped_lem db db' key value h = rw (h, set_dropped) refl

  -- With enough memory it is a map on the keys whose hash has a database.
  abbrev pub locked_db : MapDb
  locked_db = record {
    State = LockDb rb;
    get = λ db k. Lock.get rb true db k;
    set = λ db k o. set_dropped db k o;
    Valid = λ db. IsValid rb db;
    Takes = λ k. string_hash k < n_subs;
    view = λ db k. view rb db k;
    get_lem = λ db k v t. (get-set_lem rb db k none v t).0;
    set_lem = λ db k o v t.
        let s = (get-set_lem rb db k o v t).1 in (s.0, set_dropped_lem db s.0 k o s.1, s.2, s.3);
  }
