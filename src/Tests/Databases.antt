-- ===== src/Tests/Databases.antt =====
-- The databases at concrete inputs.
use smtp_course_work.Base.{
  ◌↔◌, ℕ, Bool, ◌==◌, ◌<◌, ◌≡◌, refl, true, false, none, some, [], ◌∷◌, done, abort, success, Bytes,
  bytes_eq, if◌then◌else◌, arith,
}
use smtp_course_work.Cmds.{process_cmd}
use smtp_course_work.Cmds.Session.{process_cmd_session, vdb_of, replied}
use smtp_course_work.Cmds.Locked.{locked_db}
use smtp_course_work.Db.Tree.{map_tree}
use smtp_course_work.Db.Hash.{string_hash}
use smtp_course_work.Db.Parallel.Create.{made, init_parallel_db}
use smtp_course_work.Db.Parallel.Balance.{Balanced, init_parallel_db_lem}
use smtp_course_work.Db.Simple
use smtp_course_work.Db.Simple.{SimpleDb, init_simple_db}
use smtp_course_work.Db.Simple.Laws
use smtp_course_work.Db.Simple.Laws.{has_memory, init_simple_db-IsValid, set_inst-eq-set, set_lem}
use smtp_course_work.Db.Lock
use smtp_course_work.Db.Lock.{LockDb, init_lock_db}
use smtp_course_work.Db.Lock.Laws as LockLaws
use smtp_course_work.Db.Lock.Laws.{get-set_lem, get-set_no_sub, set_drops_failure}

-- "k", "v", and "aaz", whose hash is 255
abbrev key : Bytes
key = b'k' ∷ []

abbrev value : Bytes
value = b'v' ∷ []

abbrev no_sub : Bytes
no_sub = b'a' ∷ b'a' ∷ b'z' ∷ []

hash_key : string_hash key < 255
unfolding string_hash
hash_key = omega arith

hash_no_sub : string_hash no_sub ≡ 255
unfolding string_hash
hash_no_sub = refl

abbrev simple : SimpleDb map_tree
simple = init_simple_db map_tree

simple-IsValid : Laws.IsValid map_tree simple
simple-IsValid = init_simple_db-IsValid map_tree

abbrev locked : LockDb map_tree
locked = init_lock_db map_tree

locked-IsValid : LockLaws.IsValid map_tree locked
unfolding init_lock_db
locked-IsValid = record { subs = λ t. simple-IsValid }

get-set_lem_example :
    (Lock.get map_tree true locked key ≡ done (LockLaws.view map_tree locked key))
    × ((db : LockDb map_tree) × (Lock.set map_tree has_memory locked key (some value)
          ≡ done (success, db))
        × ((j : Bytes)
            → LockLaws.view map_tree db j
              ≡ (if bytes_eq key j then some value else LockLaws.view map_tree locked j))
        × LockLaws.IsValid map_tree db)
get-set_lem_example = get-set_lem map_tree locked key (some value) locked-IsValid hash_key

get-set_no_sub_example :
    ((Lock.get map_tree true locked no_sub ≡ abort) ↔ (string_hash no_sub ≡ 255))
    × ((Lock.set map_tree has_memory locked no_sub (some value) ≡ abort)
        ↔ (string_hash no_sub ≡ 255))
get-set_no_sub_example =
    get-set_no_sub map_tree true has_memory locked no_sub (some value) locked-IsValid

set_lem_example :
    (db : SimpleDb map_tree) × (Simple.set map_tree has_memory simple key (some value)
      ≡ done (success, db))
    × ((j : Bytes)
        → Laws.view map_tree db j
          ≡ (if bytes_eq key j then some value else Laws.view map_tree simple j))
    × Laws.IsValid map_tree db
set_lem_example = set_lem map_tree simple key (some value) simple-IsValid

process_cmd_session_example :
    (db₁ db₂ : LockDb map_tree) × (process_cmd
        (vdb_of (locked_db map_tree))
        (b'=' ∷ b'k' ∷ b' ' ∷ b'v' ∷ [])
        locked
        none
      ≡ replied (locked_db map_tree) none db₁ none)
    × (process_cmd (vdb_of (locked_db map_tree)) (b'?' ∷ key) db₁ none
        ≡ replied (locked_db map_tree) (some value) db₁ none)
    × (process_cmd (vdb_of (locked_db map_tree)) (b'-' ∷ key) db₁ none
        ≡ replied (locked_db map_tree) none db₂ none)
    × (process_cmd (vdb_of (locked_db map_tree)) (b'?' ∷ key) db₂ none
        ≡ replied (locked_db map_tree) none db₂ none)
    × ((j : Bytes)
        → bytes_eq key j ≡ false
        → (LockLaws.view map_tree db₁ j ≡ LockLaws.view map_tree locked j)
          × (LockLaws.view map_tree db₂ j ≡ LockLaws.view map_tree locked j))
process_cmd_session_example =
    process_cmd_session (locked_db map_tree) locked key value none locked-IsValid hash_key
      (omega arith)

-- the queue of the second database cannot be made
abbrev one_queue : ℕ → Bool
one_queue i = i == 0

abbrev all_made : ℕ → Bool
all_made i = true

init_parallel_db_lem_example : Balanced (init_parallel_db 3 all_made one_queue all_made).1
unfolding init_parallel_db made
init_parallel_db_lem_example = init_parallel_db_lem 3 all_made one_queue all_made refl
