-- ===== src/QueueSem/Entries.antt =====
-- Places in the ring, and the entries from one of them on.
use smtp_course_work.Base.{
  ℕ, zero, suc, ◌+◌, ◌-◌, ◌≤◌, ◌<◌, ◌≡◌, ◌≢◌, refl, sym, ap, ap₂, ◌∙◌, Option, none, List, [], ◌∷◌,
  ◌++◌, length, set, get_elem?-set_self, get_elem?-set_ne, ltb, if◌then◌else◌, arith,
}
use smtp_course_work.QueueSem.{null_entries, entry_at, advance}

-- the index that lies `i` entries behind `tail`
abbrev pub slot_at : ℕ → ℕ → ℕ → ℕ
slot_at size tail i = if ltb (tail + i) size then tail + i else tail + i - size

slot_at_lt : (size tail i : ℕ) → tail < size → i ≤ size → slot_at size tail i < size
slot_at_lt size tail i h g = ground arith

pub slot_at_ne :
    (size tail i j : ℕ) → tail < size → i < j → j < size → slot_at size tail i ≢ slot_at size tail j
slot_at_ne size tail i j h g k e = ground arith

pub advance_lt : (size tail : ℕ) → tail < size → advance size tail < size
unfolding advance
advance_lt size tail h = ground arith

pub slot_at_back :
    (size tail n : ℕ)
    → tail < size
    → 0 < n
    → n ≤ size
    → slot_at size tail n ≡ slot_at size (advance size tail) (n - 1)
unfolding advance
slot_at_back size tail n h p g = ground arith

pub tail_ne : (size tail i : ℕ) → tail < size → i + 1 < size → tail ≢ slot_at size tail (i + 1)
tail_ne size tail i h g e = ground arith

pub advance-slot_at :
    (size tail i : ℕ)
    → tail < size
    → i < size
    → advance size (slot_at size tail i) ≡ slot_at size tail (i + 1)
unfolding advance
advance-slot_at size tail i h g = ground arith

pub slot_at-advance :
    (size tail i : ℕ)
    → tail < size
    → i < size
    → slot_at size (advance size tail) i ≡ slot_at size tail (i + 1)
unfolding advance
slot_at-advance size tail i h g = ground arith

module _ {A : Type 0} where
  pub entry_at-set_self :
      (q : List (Option A)) (i : ℕ) (e : Option A) → i < length q → entry_at (set q i e) i ≡ e
  unfolding entry_at
  entry_at-set_self q i e h = rw (get_elem?-set_self q i e h, entry_at) refl

  pub entry_at-set_ne :
      (q : List (Option A)) (i j : ℕ) (e : Option A) → i ≢ j → entry_at (set q i e) j ≡ entry_at q j
  unfolding entry_at
  entry_at-set_ne q i j e h = rw (get_elem?-set_ne q {i = i} {j = j} e h, entry_at) refl

  -- `n` entries from the `i`-th behind `tail` on
  unfoldable pub entries : ℕ → ℕ → List (Option A) → ℕ → ℕ → List (Option A)
  entries size tail q i zero = []
  entries size tail q i (suc n) = entry_at q (slot_at size tail i) ∷ entries size tail q (i + 1) n

  module _ (size tail : ℕ) (q : List (Option A)) (e : Option A) (h : tail < size)
      (len : length q ≡ size) where
    pub entries-push :
        (i n k : ℕ)
        → k ≡ i + n
        → k < size
        → entries size tail (set q (slot_at size tail k) e) i (suc n)
          ≡ entries size tail q i n ++ e ∷ []
    unfolding entries
    entries-push i zero k eq g =
        let same : i ≡ k = omega arith in
        ap (λ x. entry_at (set q (slot_at size tail k) e) (slot_at size tail x) ∷ []) same
        ∙ ap (λ x. x ∷ [])
            (entry_at-set_self q (slot_at size tail k) e
              (omega (arith, slot_at_lt size tail k h, len)))
    entries-push i (suc n) k eq g =
        ap₂ (λ x r. x ∷ r)
          (entry_at-set_ne q (slot_at size tail k) (slot_at size tail i) e
            (λ x. slot_at_ne size tail i k h (omega arith) g (sym x)))
          (entries-push (i + 1) n k (omega arith) g)

    pub entries-pop :
        (i n : ℕ)
        → i + n < size
        → entries size (advance size tail) (set q tail e) i n ≡ entries size tail q (i + 1) n
    unfolding entries
    entries-pop i zero g = refl
    entries-pop i (suc n) g =
        ap₂ (λ x r. x ∷ r)
          (ap (entry_at (set q tail e)) (slot_at-advance size tail i h (omega arith))
            ∙ entry_at-set_ne q tail (slot_at size tail (i + 1)) e
                (tail_ne size tail i h (omega arith)))
          (entries-pop (i + 1) n (omega arith))

pub length-null_entries : (A : Type 0) (n : ℕ) → length (null_entries {A = A} n) ≡ n
unfolding null_entries
length-null_entries A zero = refl
length-null_entries A (suc n) = ap suc (length-null_entries A n)

pub entry_at-null_entries : {A : Type 0} (n i : ℕ) → entry_at (null_entries {A = A} n) i ≡ none
unfolding null_entries entry_at
entry_at-null_entries zero i = refl
entry_at-null_entries (suc n) zero = refl
entry_at-null_entries (suc n) (suc i) = entry_at-null_entries n i

pub length-entries :
    (A : Type 0) (size tail : ℕ) (q : List (Option A)) (i n : ℕ)
    → length (entries size tail q i n) ≡ n
unfolding entries
length-entries A size tail q i zero = refl
length-entries A size tail q i (suc n) = ap suc (length-entries A size tail q (i + 1) n)
