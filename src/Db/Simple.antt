-- ===== src/Db/Simple.antt =====
-- db_simple/src/db_simple.c: the nodes on a heap, and the tree that links them. A string that the
-- database owns is its bytes; `none` for a value is NULL.
pub mod Laws
pub mod NoMemory
use smtp_course_work.Base.{
  ℕ, ◌+◌, Bool, true, false, Option, none, some, Outcome, done, abort, Status, success, failure,
  Bytes, ◌==◌, if◌then◌else◌, Option-cases,
}
use smtp_course_work.Db.Tree.{RbTree}

-- `struct db_node` without its links
pub record Node : Type 0 where
  pub key : Bytes
  pub value : Option Bytes

-- Nodes at their addresses; `none` is memory that is free.
abbrev pub Heap : Type 0
Heap = ℕ → Option Node

abbrev pub update : Heap → ℕ → Option Node → Heap
update h p n q = if p == q then n else h q

-- Which allocations of a `set` succeed: of the node, of the copy of the key, of that of the value.
pub record Allocs : Type 0 where
  pub node : Bool
  pub key : Bool
  pub value : Bool

abbrev pub copy_of : Bool → Bytes → Option Bytes
copy_of got v = if got then some v else none

module _ (rb : RbTree) where
  open rb use {Tree, empty, find, insert, remove}

  -- `struct simple_db` with the heap that its nodes live on; `fresh` is the address that the next
  -- allocation returns.
  pub record SimpleDb : Type 0 where
    pub head : Tree
    pub heap : Heap
    pub fresh : ℕ

  unfoldable pub init_simple_db : SimpleDb
  init_simple_db = record { head = empty; heap = λ p. none; fresh = 0 }

  unfoldable pub free_node : SimpleDb → ℕ → SimpleDb
  free_node db p = record db { heap = update db.heap p none }

  -- `strdup(found->value)`; a freed node or a NULL value is a fault, and `none` means no memory.
  unfoldable pub copy_value : Bool → Option Node → Outcome (Option Bytes)
  copy_value got none = abort
  copy_value got (some n) = elim n.value [ none ↦ abort | some v ↦ done (copy_of got v) ]

  unfoldable pub get : Bool → SimpleDb → Bytes → Outcome (Option Bytes)
  unfolding copy_value
  get got db key = elim (find db.head key) [
    | none ↦ done none
    | some p ↦ copy_value got (db.heap p)
  ]

  -- The arguments of the call of `async_result`, or -1. `got_value` and `got_key` are the two
  -- `strdup`s.
  unfoldable pub geta :
      Bool → Bool → SimpleDb → Bytes → Outcome (Status × Option (Bytes × Option Bytes))
  unfolding get
  geta got_value got_key db key = elim (get got_value db key) [
    | abort ↦ abort
    | done value ↦ if got_key then done (success, some (key, value)) else done (failure, none)
  ]

  unfoldable pub drop_node : SimpleDb → Bytes → SimpleDb
  unfolding free_node
  drop_node db key = elim (find db.head key) [
    | none ↦ db
    | some p ↦ free_node (record db { head = remove db.head p }) p
  ]

  -- `collision->value = value`, a fault if the node has been freed
  unfoldable pub store_value : SimpleDb → ℕ → Option Node → Option Bytes → Outcome SimpleDb
  store_value db p none v = abort
  store_value db p (some n) v =
      done (record db { heap = update db.heap p (some (record n { value = v })) })

  -- `node` is allocated, with its key and a NULL value.
  unfoldable pub with_node : SimpleDb → Bytes → SimpleDb
  with_node db key = record db {
    heap = update db.heap db.fresh (some (record { key = key; value = none }));
    fresh = db.fresh + 1;
  }

  -- What follows RB_INSERT: `strdup` of the value goes to the node that has the key, the old one or
  -- the new; on failure the old one is left with NULL, and the new one is freed.
  unfoldable pub after_insert : Bool → ℕ → Option ℕ × SimpleDb → Bytes → Outcome (Status × SimpleDb)
  unfolding free_node store_value
  after_insert got node (some p, db) value =
      elim (store_value (free_node db node) p ((free_node db node).heap p) (copy_of got value)) [
        | abort ↦ abort
        | done db' ↦ done (if got then success else failure, db')
      ]
  after_insert got node (none, db) value =
      if got
      then elim (store_value db node (db.heap node) (some value)) [
        | abort ↦ abort
        | done db' ↦ done (success, db')
      ]
      else done (failure, free_node db node)

  -- RB_INSERT of the node
  unfoldable pub link_node : SimpleDb → ℕ → Bytes → Option ℕ × SimpleDb
  link_node db node key =
      let (collision, t) = insert db.head node key in (collision, record db { head = t })

  unfoldable pub set : Allocs → SimpleDb → Bytes → Option Bytes → Outcome (Status × SimpleDb)
  unfolding drop_node with_node after_insert link_node free_node
  set got db key none = done (success, drop_node db key)
  set got db key (some value) =
      if got.node
      then (if got.key
          then after_insert got.value db.fresh (link_node (with_node db key) db.fresh key) value
          else done (failure, free_node (with_node db key) db.fresh))
      else done (failure, db)

  -- `set_inst` keeps the strings themselves, so that it allocates the node alone.
  unfoldable pub set_inst : Bool → SimpleDb → Bytes → Option Bytes → Outcome (Status × SimpleDb)
  unfolding drop_node with_node after_insert link_node
  set_inst got_node db key none = done (success, drop_node db key)
  set_inst got_node db key (some value) =
      if got_node
      then after_insert true db.fresh (link_node (with_node db key) db.fresh key) value
      else done (failure, db)
