-- ===== src/Db/Simple/NoMemory.antt =====
-- What `set` leaves when an allocation fails.
use smtp_course_work.Base.{
  ℕ, ◌<◌, ◌≡◌, ◌⊎◌, refl, Bool, true, false, none, some, done, abort, failure, Bytes, bytes_eq_refl,
  arith, Bool-cases, Option-cases, inl, inr,
}
use smtp_course_work.Db.Tree.{RbTree}
use smtp_course_work.Db.Simple.{Allocs, SimpleDb, free_node, with_node, copy_value, get, set}
use smtp_course_work.Db.Simple.Laws.{
  IsValid, view, replaced, added, after_insert_collision, after_insert_new,
}

module _ (rb : RbTree) where
  open rb use {find, insert}

  -- With no memory for the node or for the copy of the key, `set` of a value in a valid database
  -- returns -1, every key keeps its value, and the database is valid.
  pub set_no_node :
      (got : Allocs) (db : SimpleDb rb) (k v : Bytes)
      → IsValid rb db
      → (got.node ≡ false) ⊎ (got.key ≡ false)
      → (db' : SimpleDb rb) × (set rb got db k (some v) ≡ done (failure, db'))
        × ((j : Bytes) → view rb db' j ≡ view rb db j)
        × IsValid rb db'
  unfolding set with_node free_node
  set_no_node got db k v valid bad = elim (Bool-cases got.node) [
    | inr no_node ↦ (db, rw no_node refl, (λ j. refl), valid)
    | inl node ↦
        let no_key : got.key ≡ false = ground (arith, node, bad) in
        (freed, rw (node, no_key) refl, view_freed, record { linked = linked_freed })
  ]
    where
      freed : SimpleDb rb
      freed = free_node rb (with_node rb db k) db.fresh

      view_freed : (j : Bytes) → view rb freed j ≡ view rb db j
      view_freed j = elim (Option-cases (find db.head j)) [
        | inl gone ↦ rw gone
        | inr (q, here) ↦ rw here (ground (arith, (valid.linked j q here).2))
      ]

      linked_freed :
          (j : Bytes) (q : ℕ)
          → find freed.head j ≡ some q
          → (w : Bytes) × (freed.heap q ≡ some (record { key = j; value = some w }))
            × (q < freed.fresh)
      linked_freed j q h =
          let l = valid.linked j q h in (l.0, ground (arith, l.1, l.2), omega (arith, l.2))

  -- In a valid database, with memory for the node and the key and none for the copy of the value,
  -- `set` returns -1 and the next `get` of the key is a fault.
  pub get-set_no_value :
      (got_copy : Bool) (db : SimpleDb rb) (k v : Bytes)
      → IsValid rb db
      → (db' : SimpleDb rb) × (set rb
            (record { node = true; key = true; value = false })
            db
            k
            (some v)
          ≡ done (failure, db'))
        × (get rb got_copy db' k ≡ abort)
  unfolding set get copy_value
  get-set_no_value got_copy db k v valid = elim (Option-cases (find db.head k)) [
    | inl absent ↦ (
      added rb db k none,
      after_insert_new rb db k valid absent false v,
      rw (rb.find-insert_new db.head db.fresh k k absent, bytes_eq_refl k, get) (ground arith),
    )
    | inr (p, there) ↦ (
      replaced rb db p k none,
      after_insert_collision rb db k valid p there false v,
      rw (there, get) (ground arith),
    )
  ]
