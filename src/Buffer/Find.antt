-- ===== src/Buffer/Find.antt =====
-- `buffer_find` returns the first occurrence of a string in the bytes in use.
use smtp_course_work.Base.{
  ℕ, zero, suc, ◌+◌, ◌-◌, ◌≤◌, ◌<◌, ◌≡◌, refl, sym, ap, ◌∙◌, false, Option, some, none, arith,
  Bytes, length, take, drop, ◌∷◌, [], ◌==◌, ltb, Bool-cases, inl, inr, dec_lt, drop-take, take-take,
  tests, ltb→lt,
}
use smtp_course_work.Buffer.{Buffer, match_len, find_loop, buffer_find}
use smtp_course_work.Buffer.Bounds.{IsValid}
use smtp_course_work.Buffer.Contents.{contents, length-contents}

-- `string` stands at index `i` of the block.
abbrev pub Occurs : Bytes → Bytes → ℕ → Type 0
Occurs string mem i = take (length string) (drop i mem) ≡ string

-- What the result says, for the rounds from index `i` up to `i + rounds`.
abbrev pub FirstFrom : Bytes → Bytes → ℕ → ℕ → Option ℕ → Type 0
FirstFrom string mem i rounds (some k) =
    Occurs string mem k
    × (i ≤ k)
    × (k < i + rounds)
    × ((j : ℕ) → i ≤ j → j < k → ¬ Occurs string mem j)
FirstFrom string mem i rounds none = (j : ℕ) → i ≤ j → j < i + rounds → ¬ Occurs string mem j

match_len-eq-length :
    (mem string : Bytes) → match_len mem string ≡ length string → take (length string) mem ≡ string
unfolding match_len
match_len-eq-length mem [] h = refl
match_len-eq-length [] (c ∷ cs) h = absurd (omega arith)
match_len-eq-length (x ∷ xs) (c ∷ cs) h = ground (arith, match_len-eq-length xs cs)

match_len-of_prefix :
    (mem string : Bytes) → take (length string) mem ≡ string → match_len mem string ≡ length string
unfolding match_len
match_len-of_prefix mem [] h = refl
match_len-of_prefix [] (c ∷ cs) h = ground arith
match_len-of_prefix (x ∷ xs) (c ∷ cs) h = ground (arith, match_len-of_prefix xs cs)

find_loop-FirstFrom :
    (rounds i : ℕ) (mem string : Bytes)
    → FirstFrom string mem i rounds (find_loop rounds i mem string)
unfolding find_loop
find_loop-FirstFrom zero i mem string = λ j p q. absurd (omega arith)
find_loop-FirstFrom (suc rounds) i mem string =
    elim (Bool-cases (match_len (drop i mem) string == length string)) [
      | inl hit ↦ rw hit (
        match_len-eq-length (drop i mem) string (ground arith),
        omega arith,
        omega arith,
        λ j p q. absurd (omega arith),
      )
      | inr miss ↦ rw miss (
          extend (find_loop rounds (suc i) mem string) (not_here miss)
            (find_loop-FirstFrom rounds (suc i) mem string))
    ]
  where
    not_here : (match_len (drop i mem) string == length string) ≡ false → ¬ Occurs string mem i
    not_here miss o = ground (arith, match_len-of_prefix (drop i mem) string o)

    extend :
        (r : Option ℕ)
        → ¬ Occurs string mem i
        → FirstFrom string mem (suc i) rounds r
        → FirstFrom string mem i (suc rounds) r
    extend none no_i f = λ j p q o. elim (dec_lt i j) [
      | yes later ↦ f j later (omega arith) o
      | no here ↦ let e : j ≡ i = omega arith in no_i (rw e at o)
    ]
    extend (some k) no_i f = (
      f.0,
      omega arith,
      omega arith,
      λ j p q o. elim (dec_lt i j) [
        | yes later ↦ f.3 j later q o
        | no here ↦ let e : j ≡ i = omega arith in no_i (rw e at o)
      ],
    )

-- The description of a search: the least index at which `string` stands wholly within `text`, or
-- none where it stands nowhere.
abbrev pub Found : Bytes → Bytes → Option ℕ → Type 0
Found string text (some k) =
    (k + length string ≤ length text)
    × Occurs string text k
    × ((j : ℕ) → j < k → ¬ Occurs string text j)
Found string text none = (j : ℕ) → j + length string ≤ length text → ¬ Occurs string text j

-- Within the bytes in use the block and the contents agree.
Occurs-contents :
    (b : Buffer) (string : Bytes) (j : ℕ)
    → j + length string ≤ b.pos
    → take (length string) (drop j (contents b)) ≡ take (length string) (drop j b.buf)
unfolding contents
Occurs-contents b string j h =
    ap (λ k. take (length string) (drop j (take k b.buf))) (omega arith)
    ∙ ap (λ r. take (length string) r) (drop-take j (b.pos - j) b.buf)
    ∙ take-take (length string) (b.pos - j) (drop j b.buf) (omega arith)

Found-of_FirstFrom :
    (b : Buffer) (string : Bytes) (r : Option ℕ)
    → IsValid b
    → length string ≤ b.pos
    → FirstFrom string b.buf 0 (b.pos - length string + 1) r
    → Found string (contents b) r
Found-of_FirstFrom b string none v h f = λ j p o.
    f j (omega arith) (omega (arith, length-contents v))
      (sym (Occurs-contents b string j (omega (arith, length-contents v))) ∙ o)
Found-of_FirstFrom b string (some k) v h f = (
  omega (arith, length-contents v),
  Occurs-contents b string k (omega arith) ∙ f.0,
  λ j p o. f.3 j (omega arith) p (sym (Occurs-contents b string j (omega arith)) ∙ o),
)

-- On a valid buffer `buffer_find` returns the least index at which the string stands wholly within
-- the bytes in use, and -1 exactly when it stands nowhere there.
pub buffer_find-Found :
    (b : Buffer) (string : Bytes) → IsValid b → Found string (contents b) (buffer_find b string)
unfolding buffer_find
buffer_find-Found b string v = elim (Bool-cases (ltb b.pos (length string))) [
  | inl short ↦
      rw short
        (λ j p o. absurd (omega (tests, length-contents v, ltb→lt b.pos (length string) short)))
  | inr fits ↦ rw fits (
      Found-of_FirstFrom b string (find_loop (b.pos - length string + 1) 0 b.buf string) v
        (ground arith) (find_loop-FirstFrom (b.pos - length string + 1) 0 b.buf string))
]
