-- ===== src/Base/Blocks.antt =====
-- C memory as lists of bytes: blocks, `memmove`, and the string that a block holds.
use Prim.Native.Nat.{ℕ, ◌+◌, ◌≤◌, ◌<◌}
use mathlib.Core.Path.{◌≡◌, refl, ap, ◌∙◌}
use mathlib.Core.Logic.{◌↔◌}
use mathlib.Core.Bool.{Bool, true, false, ◌&&◌}
use mathlib.Core.List.{List, [], ◌∷◌, ◌++◌}
use native.Mathlib.Omega.{arith}
use smtp_course_work.Base.Tests.{◌==◌, if◌then◌else◌}
use smtp_course_work.Base.Lists.{length, take, drop, length-append}
use smtp_course_work.Base.Slices.{
  length-take, length-drop, take-append_le, take-append_ge, take_all,
}

abbrev pub Bytes : Type 0
Bytes = List ℕ

-- The bytes of a block from `i` on replaced by `bs`.
abbrev pub write_at : Bytes → ℕ → Bytes → Bytes
write_at mem i bs = take i mem ++ (bs ++ drop (i + length bs) mem)

-- `memmove(mem + to, mem + from, n)` within one block
abbrev pub move_within : Bytes → ℕ → ℕ → ℕ → Bytes
move_within mem to from n = write_at mem to (take n (drop from mem))

-- The C string at the start of a block: the bytes before the first NUL.
abbrev pub c_string : Bytes → Bytes
c_string [] = []
c_string (x ∷ xs) = if x == 0 then [] else x ∷ c_string xs

abbrev pub strlen : Bytes → ℕ
strlen mem = length (c_string mem)

-- `!strcmp(a, b)`, and `memcmp`
abbrev pub bytes_eq : Bytes → Bytes → Bool
bytes_eq [] [] = true
bytes_eq [] (y ∷ ys) = false
bytes_eq (x ∷ xs) [] = false
bytes_eq (x ∷ xs) (y ∷ ys) = (x == y) && bytes_eq xs ys

pub bytes_eq_iff : (a b : Bytes) → (bytes_eq a b ≡ true) ↔ (a ≡ b)
bytes_eq_iff [] [] = ground arith
bytes_eq_iff [] (y ∷ ys) = ground arith
bytes_eq_iff (x ∷ xs) [] = ground arith
bytes_eq_iff (x ∷ xs) (y ∷ ys) = ground (arith, bytes_eq_iff xs ys)

pub bytes_eq_refl : (a : Bytes) → bytes_eq a a ≡ true
bytes_eq_refl a = (bytes_eq_iff a a).1 refl

pub length-write_at :
    (mem : Bytes) (i : ℕ) (bs : Bytes)
    → i + length bs ≤ length mem
    → length (write_at mem i bs) ≡ length mem
length-write_at mem i bs h = omega (
  arith,
  length-append (take i mem) (bs ++ drop (i + length bs) mem),
  length-append bs (drop (i + length bs) mem),
  length-take i mem,
  length-drop (i + length bs) mem,
)

-- The bytes before the end of a write are those before its start and those written.
pub take-write_at :
    (mem : Bytes) (i : ℕ) (bs : Bytes)
    → i + length bs ≤ length mem
    → take (i + length bs) (write_at mem i bs) ≡ take i mem ++ bs
take-write_at mem i bs h =
    take-append_ge (i + length bs) (take i mem) (bs ++ drop (i + length bs) mem)
      (omega (arith, length-take i mem))
    ∙ ap (λ r. take i mem ++ r)
        (ap (λ k. take k (bs ++ drop (i + length bs) mem)) (omega (arith, length-take i mem))
          ∙ take-append_le (length bs) bs (drop (i + length bs) mem) (omega arith)
          ∙ take_all (length bs) bs (omega arith))

-- A string with no NUL is the C string of any block that it begins, up to a NUL.
abbrev pub NoNul : Bytes → Type 0
NoNul [] = Unit
NoNul (x ∷ xs) = (0 < x) × NoNul xs

pub c_string-append_nul : (s rest : Bytes) → NoNul s → c_string (s ++ 0 ∷ rest) ≡ s
c_string-append_nul [] rest h = refl
c_string-append_nul (x ∷ xs) rest h = ground (arith, c_string-append_nul xs rest h.1)

pub c_string-NoNul : (mem : Bytes) → NoNul (c_string mem)
c_string-NoNul [] = tt
c_string-NoNul (x ∷ xs) = ground (arith, c_string-NoNul xs)

pub strlen-le : (mem : Bytes) → strlen mem ≤ length mem
strlen-le [] = omega arith
strlen-le (x ∷ xs) = ground (arith, strlen-le xs)
