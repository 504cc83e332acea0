-- ===== src/Db/Tree.antt =====
-- The red-black trees that RB_GENERATE makes of struct_bsd/inc/tree.h, a copy of BSD's sys/tree.h, as an
-- interface: the generated functions that db_simple.c calls on nodes ordered by `strcmp` of their
-- keys, and what the manual page says of them. A node is its address.
use smtp_course_work.Base.{
  ℕ, ◌≡◌, refl, Bool, false, Option, none, some, Bytes, bytes_eq, bytes_eq_iff, if◌then◌else◌, ◌==◌,
  arith, Bool-cases, Option-cases, inl, inr, sym, ap, ◌∙◌,
}

pub record RbTree : Type 1 where
  pub Tree : Type 0
  pub empty : Tree
  -- RB_FIND, the node whose key compares equal
  pub find : Tree → Bytes → Option ℕ
  -- RB_INSERT of a node with a key: NULL, or the node that has the key already
  pub insert : Tree → ℕ → Bytes → Option ℕ × Tree
  -- RB_REMOVE of a node
  pub remove : Tree → ℕ → Tree
  pub find-empty : (k : Bytes) → find empty k ≡ none
  pub insert_collision :
      (t : Tree) (n p : ℕ) (k : Bytes) → find t k ≡ some p → insert t n k ≡ (some p, t)
  pub insert_new : (t : Tree) (n : ℕ) (k : Bytes) → find t k ≡ none → (insert t n k).0 ≡ none
  pub find-insert_new :
      (t : Tree) (n : ℕ) (k j : Bytes)
      → find t k ≡ none
      → find (insert t n k).1 j ≡ (if bytes_eq k j then some n else find t j)
  -- A node that has one place in the tree leaves it, and the others stay.
  pub find-remove :
      (t : Tree) (p : ℕ) (k j : Bytes)
      → find t k ≡ some p
      → ((i : Bytes) → find t i ≡ some p → i ≡ k)
      → find (remove t p) j ≡ (if bytes_eq k j then none else find t j)

unfoldable pub option_is : Option ℕ → ℕ → Bool
option_is none p = false
option_is (some q) p = q == p

-- Maps from keys to nodes meet the interface.
abbrev pub map_insert : (Bytes → Option ℕ) → ℕ → Bytes → Option ℕ × (Bytes → Option ℕ)
map_insert t n k = elim (t k) [
  | some p ↦ (some p, t)
  | none ↦ (none, λ j. if bytes_eq k j then some n else t j)
]

abbrev pub map_remove : (Bytes → Option ℕ) → ℕ → Bytes → Option ℕ
unfolding option_is
map_remove t p j = if option_is (t j) p then none else t j

pub map_insert_collision :
    (t : Bytes → Option ℕ) (n p : ℕ) (k : Bytes) → t k ≡ some p → map_insert t n k ≡ (some p, t)
map_insert_collision t n p k h = rw (h, map_insert)

pub map_insert_new :
    (t : Bytes → Option ℕ) (n : ℕ) (k : Bytes) → t k ≡ none → (map_insert t n k).0 ≡ none
map_insert_new t n k h = rw (h, map_insert)

pub find-map_insert_new :
    (t : Bytes → Option ℕ) (n : ℕ) (k j : Bytes)
    → t k ≡ none
    → (map_insert t n k).1 j ≡ (if bytes_eq k j then some n else t j)
find-map_insert_new t n k j h = rw (h, map_insert)

pub find-map_remove :
    (t : Bytes → Option ℕ) (p : ℕ) (k j : Bytes)
    → t k ≡ some p
    → ((i : Bytes) → t i ≡ some p → i ≡ k)
    → map_remove t p j ≡ (if bytes_eq k j then none else t j)
unfolding option_is
find-map_remove t p k j h once = elim (Bool-cases (bytes_eq k j)) [
  | inl same ↦
      let e : k ≡ j = (bytes_eq_iff k j).0 same in rw (same, ← e, h, map_remove) (ground arith)
  | inr other ↦ elim (Option-cases (t j)) [
    | inl gone ↦ rw (other, gone, map_remove)
    | inr (q, there) ↦
        rw (other, there, map_remove)
          (ground (arith, bytes_eq_iff k j, λ (e : q ≡ p). sym (once j (there ∙ ap some e))))
  ]
]

abbrev pub map_tree : RbTree
map_tree = record {
  Tree = Bytes → Option ℕ;
  empty = λ k. none;
  find = λ t k. t k;
  insert = map_insert;
  remove = map_remove;
  find-empty = λ k. refl;
  insert_collision = map_insert_collision;
  insert_new = map_insert_new;
  find-insert_new = find-map_insert_new;
  find-remove = find-map_remove;
}
