-- ===== src/Db/Lock/Laws.antt =====
-- db_lock.c is one map on the keys whose hash has a database; the other keys stop the process.
use smtp_course_work.Base.{
  ℕ, ◌<◌, ◌≡◌, ◌≢◌, ◌↔◌, ◌⊎◌, Outcome-cases, refl, sym, ap, ◌∙◌, Bool, true, false, Option, some,
  done, abort, success, Bytes, bytes_eq, bytes_eq_iff, ltb, ◌==◌, if◌then◌else◌, arith, Bool-cases,
  inl, inr,
}
use smtp_course_work.Db.Tree.{RbTree}
use smtp_course_work.Db.Simple
use smtp_course_work.Db.Simple.{SimpleDb, Allocs}
use smtp_course_work.Db.Simple.Laws
use smtp_course_work.Db.Simple.Laws.{has_memory}
use smtp_course_work.Db.Hash.{string_hash, string_hash_lem}
use smtp_course_work.Db.Lock.{LockDb, n_subs, put_sub, get, set}

module _ (rb : RbTree) where
  abbrev pub view : LockDb rb → Bytes → Option Bytes
  view db k = Laws.view rb (db.subs (string_hash k)) k

  pub record IsValid (db : LockDb rb) : Type 0 where
    pub subs : (t : ℕ) → Laws.IsValid rb (db.subs t)

  module _ (db : LockDb rb) (k : Bytes) (valid : IsValid db) (sub : SimpleDb rb) where
    put_sub-IsValid : Laws.IsValid rb sub → IsValid (put_sub rb db (string_hash k) sub)
    unfolding put_sub
    put_sub-IsValid v = record {
      subs = λ t. elim (Bool-cases (string_hash k == t)) [
        | inl same ↦ rw same v
        | inr other ↦ rw other (valid.subs t)
      ];
    }

    view-put_sub :
        (o : Option Bytes)
        → ((j : Bytes)
            → Laws.view rb sub j
              ≡ (if bytes_eq k j then o else Laws.view rb (db.subs (string_hash k)) j))
        → (j : Bytes)
        → view (put_sub rb db (string_hash k) sub) j ≡ (if bytes_eq k j then o else view db j)
    unfolding put_sub
    view-put_sub o h j = elim (Bool-cases (string_hash k == string_hash j)) [
      | inl same ↦
          let e : string_hash k ≡ string_hash j = ground arith in
          rw same (h j ∙ ap (λ t. if bytes_eq k j then o else Laws.view rb (db.subs t) j) e)
      | inr other ↦
          let ne : bytes_eq k j ≡ false =
            ground (arith, bytes_eq_iff k j, λ (e : k ≡ j). ap string_hash e) in
          rw (other, ne)
    ]

  -- In a valid database, and where the hash of the key is below N_SUBS, `get`, given memory,
  -- returns the key's value, and `set`, given memory, makes the new value the key's (none, where it
  -- is NULL) and leaves every other key's, in a valid database.
  pub get-set_lem :
      (db : LockDb rb) (k : Bytes) (o : Option Bytes)
      → IsValid db
      → string_hash k < n_subs
      → (get rb true db k ≡ done (view db k))
        × ((db' : LockDb rb) × (set rb has_memory db k o ≡ done (success, db'))
            × ((j : Bytes) → view db' j ≡ (if bytes_eq k j then o else view db j))
            × IsValid db')
  unfolding get set
  get-set_lem db k o v h =
      let below : ltb (string_hash k) n_subs ≡ true = ground arith in
      let s = Laws.set_lem rb (db.subs (string_hash k)) k o (v.subs (string_hash k)) in
      rw (below, s.1)
        (
          Laws.get_lem rb (db.subs (string_hash k)) k (v.subs (string_hash k)),
          (
            put_sub rb db (string_hash k) s.0,
            refl,
            view-put_sub db k v s.0 o s.2,
            put_sub-IsValid db k v s.0 s.3,
          ),
        )

  below_iff : (t : ℕ) → t < 256 → t ≢ 255 → ltb t n_subs ≡ true
  below_iff t h ne = ground arith

  get-255 :
      (got : Bool) (db : LockDb rb) (k : Bytes) → string_hash k ≡ 255 → get rb got db k ≡ abort
  unfolding get
  get-255 got db k h = rw h refl

  set-255 :
      (allocs : Allocs) (db : LockDb rb) (k : Bytes) (o : Option Bytes)
      → string_hash k ≡ 255
      → set rb allocs db k o ≡ abort
  unfolding set
  set-255 allocs db k o h = rw h refl

  set_sub_stops :
      (allocs : Allocs) (db : LockDb rb) (k : Bytes) (o : Option Bytes)
      → ltb (string_hash k) n_subs ≡ true
      → set rb allocs db k o ≡ abort
      → Simple.set rb allocs (db.subs (string_hash k)) k o ≡ abort
  unfolding set
  set_sub_stops allocs db k o below e =
      elim (Outcome-cases (Simple.set rb allocs (db.subs (string_hash k)) k o)) [
        | inl a ↦ a
        | inr (r, d) ↦ absurd (ground (arith, e, below, d))
      ]

  hash-cases : (k : Bytes) → (string_hash k ≡ 255) ⊎ (ltb (string_hash k) n_subs ≡ true)
  hash-cases k = elim (Bool-cases (string_hash k == 255)) [
    | inl same ↦ inl (ground arith)
    | inr other ↦ inr (below_iff (string_hash k) (string_hash_lem k).0 (λ h. ground arith))
  ]

  get_stops→255 :
      (got : Bool) (db : LockDb rb) (k : Bytes)
      → IsValid db
      → get rb got db k ≡ abort
      → string_hash k ≡ 255
  unfolding get
  get_stops→255 got db k v e = elim (hash-cases k) [
    | inl h ↦ h
    | inr below ↦ absurd (
        Laws.get-runs rb got (db.subs (string_hash k)) k (v.subs (string_hash k))
          (sym (rw below refl) ∙ e))
  ]

  set_stops→255 :
      (allocs : Allocs) (db : LockDb rb) (k : Bytes) (o : Option Bytes)
      → IsValid db
      → set rb allocs db k o ≡ abort
      → string_hash k ≡ 255
  set_stops→255 allocs db k o v e = elim (hash-cases k) [
    | inl h ↦ h
    | inr below ↦ absurd (
        Laws.set-runs rb allocs (db.subs (string_hash k)) k o (v.subs (string_hash k))
          (set_sub_stops allocs db k o below e))
  ]

  -- In a valid database, `get` of a key stops the process exactly where its hash is 255, and so does `set`, whatever
  -- the allocations bring.
  pub get-set_no_sub :
      (got : Bool) (allocs : Allocs) (db : LockDb rb) (k : Bytes) (o : Option Bytes)
      → IsValid db
      → ((get rb got db k ≡ abort) ↔ (string_hash k ≡ 255))
        × ((set rb allocs db k o ≡ abort) ↔ (string_hash k ≡ 255))
  get-set_no_sub got allocs db k o v = (
    (get_stops→255 got db k v, get-255 got db k),
    (set_stops→255 allocs db k o v, set-255 allocs db k o),
  )

  -- `set` of a key with a database returns 0 even where the inner `set` fails: in a valid database
  -- and with no memory for the node of a value, the result is 0 and the key keeps the value that it
  -- had.
  pub set_drops_failure :
      (db : LockDb rb) (k w : Bytes)
      → IsValid db
      → string_hash k < n_subs
      → (db' : LockDb rb) × (set rb
            (record { node = false; key = true; value = true })
            db
            k
            (some w)
          ≡ done (success, db'))
        × (view db' k ≡ view db k)
  unfolding set put_sub Simple.set
  set_drops_failure db k w v h =
      let below : ltb (string_hash k) n_subs ≡ true = ground arith in
      (put_sub rb db (string_hash k) (db.subs (string_hash k)), rw below refl, ground arith)
