-- ===== src/Db/Simple/Laws.antt =====
-- db_simple.c is a map from keys to values: the laws of `get`, `set` and `set_inst` for callers that
-- have the memory they ask for.
use smtp_course_work.Base.{
  ℕ, ◌+◌, ◌<◌, ◌≡◌, ◌≢◌, refl, sym, ap, ◌∙◌, Bool, true, false, Option, none, some, done, abort,
  Status, success, Bytes, bytes_eq, bytes_eq_iff, if◌then◌else◌, ◌==◌, arith, Bool-cases,
  Option-cases, inl, inr,
}
use smtp_course_work.Db.Tree.{RbTree}
use smtp_course_work.Db.Simple.{
  Node, update, Allocs, SimpleDb, init_simple_db, free_node, copy_value, get, drop_node,
  store_value, with_node, after_insert, link_node, set, set_inst,
}

abbrev pub has_memory : Allocs
has_memory = record { node = true; key = true; value = true }

abbrev pub value_at : Option Node → Option Bytes
value_at none = none
value_at (some n) = n.value

module _ (rb : RbTree) where
  open rb use {Tree, find, insert, remove}

  abbrev pub at_node : SimpleDb rb → Option ℕ → Option Bytes
  at_node db none = none
  at_node db (some p) = value_at (db.heap p)

  -- the value that a key has
  abbrev pub view : SimpleDb rb → Bytes → Option Bytes
  view db k = at_node db (find db.head k)

  -- Every node of the tree is allocated, below the next address, with the key that it is found
  -- under and a value.
  pub record IsValid (db : SimpleDb rb) : Type 0 where
    pub linked :
        (k : Bytes) (p : ℕ)
        → find db.head k ≡ some p
        → (v : Bytes) × (db.heap p ≡ some (record { key = k; value = some v })) × (p < db.fresh)

  pub init_simple_db-IsValid : IsValid (init_simple_db rb)
  unfolding init_simple_db
  init_simple_db-IsValid = record {
    linked = λ k p h. absurd (none_some (sym (rb.find-empty k) ∙ h));
  }
    where
      none_some : {p : ℕ} → none ≡ some p → ⊥
      none_some h = cc

  -- No two keys have one node.
  pub one_key :
      {db : SimpleDb rb}
      → IsValid db
      → (k i : Bytes) (p : ℕ) → find db.head k ≡ some p
      → find db.head i ≡ some p
      → i ≡ k
  one_key v k i p h g = cc ((v.linked k p h).1, (v.linked i p g).1)

  -- `get` returns a copy of the value of the key, or NULL where the key has none.
  pub get_lem : (db : SimpleDb rb) (k : Bytes) → IsValid db → get rb true db k ≡ done (view db k)
  unfolding get copy_value
  get_lem db k v = elim (Option-cases (find db.head k)) [
    | inl absent ↦ rw (absent, get)
    | inr (p, there) ↦ rw (there, get, (v.linked k p there).1, copy_value)
  ]

  -- In a valid database `get` stops the process in no case.
  pub get-runs : (got : Bool) (db : SimpleDb rb) (k : Bytes) → IsValid db → get rb got db k ≢ abort
  unfolding get copy_value
  get-runs got db k v e = elim (Option-cases (find db.head k)) [
    | inl absent ↦ absurd (ground (arith, e, absent))
    | inr (p, there) ↦ absurd (ground (arith, e, there, (v.linked k p there).1))
  ]

  -- the states that a `set` of a value leaves where the key has a node, and where it has none
  abbrev pub replaced : SimpleDb rb → ℕ → Bytes → Option Bytes → SimpleDb rb
  replaced db p k v = record db {
    heap =
        update
          (update (update db.heap db.fresh (some (record { key = k; value = none }))) db.fresh none)
          p (some (record { key = k; value = v }));
    fresh = db.fresh + 1;
  }

  abbrev pub added : SimpleDb rb → Bytes → Option Node → SimpleDb rb
  added db k n = record {
    head = (insert db.head db.fresh k).1;
    heap = update (update db.heap db.fresh (some (record { key = k; value = none }))) db.fresh n;
    fresh = db.fresh + 1;
  }

  abbrev pub dropped : SimpleDb rb → ℕ → SimpleDb rb
  dropped db p = record db { head = remove db.head p; heap = update db.heap p none }

  module _ (db : SimpleDb rb) (k : Bytes) (valid : IsValid db) where
    module _ (p : ℕ) (there : find db.head k ≡ some p) where
      pub after_insert_collision :
          (got : Bool) (v : Bytes)
          → after_insert rb got db.fresh (link_node rb (with_node rb db k) db.fresh k) v
            ≡ done (
              if got then success else Status.failure,
              replaced db p k (if got then some v else none),
            )
      unfolding after_insert link_node with_node free_node store_value
      after_insert_collision got v =
          let l = valid.linked k p there in
          rw (rb.insert_collision db.head db.fresh p k there) (ground (arith, l))

      dropped_eq : drop_node rb db k ≡ dropped db p
      unfolding drop_node free_node
      dropped_eq = rw (there, drop_node)

      heap_replaced :
          (o : Option Bytes) (q : ℕ)
          → (replaced db p k o).heap q ≡ (
              if p == q
              then some (record { key = k; value = o })
              else if db.fresh == q
              then none
              else db.heap q)
      heap_replaced o q = ground arith

      -- the node of another key is another node, and an old one
      apart :
          (j : Bytes) (q : ℕ)
          → bytes_eq k j ≡ false
          → find db.head j ≡ some q
          → (p ≢ q) × (q < db.fresh)
      apart j q other here = (
        λ e. ground (arith, bytes_eq_iff k j, one_key valid k j p there (here ∙ ap some (sym e))),
        (valid.linked j q here).2,
      )

      pub view-replaced :
          (v j : Bytes)
          → view (replaced db p k (some v)) j ≡ (if bytes_eq k j then some v else view db j)
      view-replaced v j = elim (Bool-cases (bytes_eq k j)) [
        | inl same ↦
            let e : k ≡ j = (bytes_eq_iff k j).0 same in rw (same, ← e, there) (ground arith)
        | inr other ↦ elim (Option-cases (find db.head j)) [
          | inl gone ↦ rw (other, gone)
          | inr (q, here) ↦ rw (other, here) (ground (arith, apart j q other here))
        ]
      ]

      replaced-IsValid : (v : Bytes) → IsValid (replaced db p k (some v))
      replaced-IsValid v = record {
        linked = λ j q h. elim (Bool-cases (bytes_eq k j)) [
          | inl same ↦
              let e : k ≡ j = (bytes_eq_iff k j).0 same in
              (v, ground (arith, e, there), ground (arith, (valid.linked k p there).2, e, there))
          | inr other ↦
              let l = valid.linked j q h in
              (l.0, ground (arith, apart j q other h, l.1), omega (arith, l.2))
        ];
      }

      view-dropped :
          (j : Bytes) → view (dropped db p) j ≡ (if bytes_eq k j then none else view db j)
      view-dropped j =
          rw (rb.find-remove db.head p k j there (λ i h. one_key valid k i p there h))
            (elim (Bool-cases (bytes_eq k j)) [
              | inl same ↦ rw same
              | inr other ↦ elim (Option-cases (find db.head j)) [
                | inl gone ↦ rw (other, gone)
                | inr (q, here) ↦ rw (other, here) (ground (arith, apart j q other here))
              ]
            ])

      dropped-IsValid : IsValid (dropped db p)
      dropped-IsValid = record {
        linked = λ j q h.
            let r : (if bytes_eq k j then none else find db.head j) ≡ some q =
              sym (rb.find-remove db.head p k j there (λ i h'. one_key valid k i p there h')) ∙ h in
            elim (Bool-cases (bytes_eq k j)) [
              | inl same ↦ absurd (ground (arith, same, r))
              | inr other ↦
                  let here : find db.head j ≡ some q = ground (arith, other, r) in
                  let l = valid.linked j q here in
                  (l.0, ground (arith, apart j q other here, l.1), l.2)
            ];
      }

    module _ (absent : find db.head k ≡ none) where
      pub after_insert_new :
          (got : Bool) (v : Bytes)
          → after_insert rb got db.fresh (link_node rb (with_node rb db k) db.fresh k) v
            ≡ done (
              if got then success else Status.failure,
              added db k (if got then some (record { key = k; value = some v }) else none),
            )
      unfolding after_insert link_node with_node free_node store_value
      after_insert_new got v =
          rw (rb.insert_new db.head db.fresh k absent, after_insert) (ground arith)

      view-added :
          (v j : Bytes)
          → view (added db k (some (record { key = k; value = some v }))) j
            ≡ (if bytes_eq k j then some v else view db j)
      view-added v j =
          rw (rb.find-insert_new db.head db.fresh k j absent) (elim (Bool-cases (bytes_eq k j)) [
            | inl same ↦ rw same (ground arith)
            | inr other ↦ elim (Option-cases (find db.head j)) [
              | inl gone ↦ rw (other, gone)
              | inr (q, here) ↦ rw (other, here) (ground (arith, (valid.linked j q here).2))
            ]
          ])

      added-IsValid : (v : Bytes) → IsValid (added db k (some (record { key = k; value = some v })))
      added-IsValid v = record {
        linked = λ j q h.
            let r : (if bytes_eq k j then some db.fresh else find db.head j) ≡ some q =
              sym (rb.find-insert_new db.head db.fresh k j absent) ∙ h in
            elim (Bool-cases (bytes_eq k j)) [
              | inl same ↦
                  let e : k ≡ j = (bytes_eq_iff k j).0 same in
                  let f : db.fresh ≡ q = ground (arith, same, r) in
                  (v, ground (arith, e, f), omega (arith, f))
              | inr other ↦
                  let here : find db.head j ≡ some q = ground (arith, other, r) in
                  let l = valid.linked j q here in
                  (l.0, ground (arith, l.1, l.2), omega (arith, l.2))
            ];
      }

  drop_absent : (db : SimpleDb rb) (k : Bytes) → find db.head k ≡ none → drop_node rb db k ≡ db
  unfolding drop_node
  drop_absent db k absent = rw (absent, drop_node)

  view_absent :
      (db : SimpleDb rb) (k : Bytes)
      → find db.head k ≡ none
      → (j : Bytes) → view db j ≡ (if bytes_eq k j then none else view db j)
  view_absent db k absent j = elim (Bool-cases (bytes_eq k j)) [
    | inl same ↦ let e : k ≡ j = (bytes_eq_iff k j).0 same in rw (same, ← e, absent)
    | inr other ↦ rw other
  ]

  -- In a valid database `set` stops the process in no case, whatever the allocations bring.
  pub set-runs :
      (allocs : Allocs) (db : SimpleDb rb) (k : Bytes) (o : Option Bytes)
      → IsValid db
      → set rb allocs db k o ≢ abort
  unfolding set
  set-runs allocs db k none v e = absurd (ground (arith, e))
  set-runs allocs db k (some w) v e = elim (Bool-cases allocs.node) [
    | inr n ↦ absurd (ground (arith, e, n))
    | inl n ↦ elim (Bool-cases allocs.key) [
      | inr c ↦ absurd (ground (arith, e, n, c))
      | inl c ↦ elim (Option-cases (find db.head k)) [
        | inl absent ↦
            absurd (ground (arith, e, n, c, after_insert_new db k v absent allocs.value w))
        | inr (p, there) ↦
            absurd (ground (arith, e, n, c, after_insert_collision db k v p there allocs.value w))
      ]
    ]
  ]

  -- `set`, given the memory that it asks for, succeeds from every valid database: afterwards the key
  -- has the value (none, where the value is NULL), every other key has what it had, and the database is valid.
  pub set_lem :
      (db : SimpleDb rb) (k : Bytes) (o : Option Bytes)
      → IsValid db
      → (db' : SimpleDb rb) × (set rb has_memory db k o ≡ done (success, db'))
        × ((j : Bytes) → view db' j ≡ (if bytes_eq k j then o else view db j))
        × IsValid db'
  unfolding set
  set_lem db k none v = elim (Option-cases (find db.head k)) [
    | inl absent ↦ (db, rw (drop_absent db k absent), view_absent db k absent, v)
    | inr (p, there) ↦ (
      dropped db p,
      rw (dropped_eq db k v p there),
      view-dropped db k v p there,
      dropped-IsValid db k v p there,
    )
  ]
  set_lem db k (some w) v = elim (Option-cases (find db.head k)) [
    | inl absent ↦ (
      added db k (some (record { key = k; value = some w })),
      after_insert_new db k v absent true w,
      view-added db k v absent w,
      added-IsValid db k v absent w,
    )
    | inr (p, there) ↦ (
      replaced db p k (some w),
      after_insert_collision db k v p there true w,
      view-replaced db k v p there w,
      replaced-IsValid db k v p there w,
    )
  ]

  -- `set_inst` does to the database what `set` does with enough memory for its copies.
  pub set_inst-eq-set :
      (got_node : Bool) (db : SimpleDb rb) (k : Bytes) (o : Option Bytes)
      → set_inst rb got_node db k o
        ≡ set rb (record { node = got_node; key = true; value = true }) db k o
  unfolding set set_inst
  set_inst-eq-set got_node db k none = refl
  set_inst-eq-set got_node db k (some v) = refl
