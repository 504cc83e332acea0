-- ===== src/Db/Hash.antt =====
-- db_lock/src/string_hash.c (db_parallel has the same file). A string is its bytes without the NUL; a
-- `char` is signed and an `int` has 32 bits, kept as its bit pattern, where `>>` keeps the sign.
use smtp_course_work.Base.{
  ℕ, zero, suc, ◌+◌, ◌-◌, ◌/◌, ◌%◌, ◌^◌, ◌<◌, ◌≡◌, refl, [], ◌∷◌, Bytes, take, ltb, if◌then◌else◌,
  arith,
}

abbrev pub max_hash : ℕ
max_hash = 16

-- a `char` as an `int`
abbrev pub int_of_char : ℕ → ℕ
int_of_char c = if ltb c 128 then c else c + (2 ^ 32 - 256)

-- `x >> k` of an `int`
abbrev pub shift_right : ℕ → ℕ → ℕ
shift_right x k = if ltb x (2 ^ 31) then x / 2 ^ k else 2 ^ 32 - 1 - (2 ^ 32 - 1 - x) / 2 ^ k

-- the loop from `n` on, with the rounds left before MAX_HASH
unfoldable pub hash_loop : ℕ → ℕ → Bytes → ℕ → ℕ
hash_loop zero n string result = result
hash_loop (suc rounds) n [] result = result
hash_loop (suc rounds) n (c ∷ string) result =
    hash_loop rounds (n + 1) string ((result + shift_right (int_of_char c) (n / 2)) % 2 ^ 32)

-- `result & 0x0ff`
unfoldable pub string_hash : Bytes → ℕ
unfolding hash_loop
string_hash string = hash_loop max_hash 0 string 0 % 256

hash_loop-take :
    (rounds n : ℕ) (string : Bytes) (result : ℕ)
    → hash_loop rounds n (take rounds string) result ≡ hash_loop rounds n string result
unfolding hash_loop
hash_loop-take zero n string result = refl
hash_loop-take (suc rounds) n [] result = refl
hash_loop-take (suc rounds) n (c ∷ string) result =
    hash_loop-take rounds (n + 1) string ((result + shift_right (int_of_char c) (n / 2)) % 2 ^ 32)

-- The hash of every string is below 256, and depends on its first 16 characters alone.
pub string_hash_lem :
    (string : Bytes)
    → (string_hash string < 256) × (string_hash (take 16 string) ≡ string_hash string)
unfolding string_hash
string_hash_lem string = (omega arith, λ i. hash_loop-take 16 0 string 0 i % 256)
