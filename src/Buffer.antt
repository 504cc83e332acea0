-- ===== src/Buffer.antt =====
-- struct_buffer/inc/buffer.h: a receive buffer, a block of `size` bytes of which the first `pos`
-- are in use.
pub mod Bounds
pub mod Contents
pub mod Find
use smtp_course_work.Base.{
  ℕ, zero, suc, ◌+◌, ◌-◌, ◌%◌, ◌^◌, Bool, true, false, not, Option, none, some, List, [], ◌∷◌, ◌++◌,
  Outcome, done, abort, Status, success, failure, Bytes, length, take, drop, write_at, move_within,
  ltb, leb, ◌==◌, if◌then◌else◌,
}

-- `struct buffer`. `buf` is the block at the pointer; `allocated` is `buf->buf != NULL`.
pub record Buffer : Type 0 where
  pub buf : Bytes
  pub allocated : Bool
  pub size : ℕ
  pub pos : ℕ

-- `size_t` addition
abbrev pub add_size : ℕ → ℕ → ℕ
add_size a b = (a + b) % 2 ^ 64

-- `block` is what `malloc(size)` returns.
unfoldable pub init_buffer : Option Bytes → ℕ → Status × Buffer
init_buffer none size = (failure, record { buf = []; allocated = false; size = 0; pos = 0 })
init_buffer (some block) size =
    (success, record { buf = block; allocated = true; size = size; pos = 0 })

-- The pointer keeps its value, and the block is gone.
unfoldable pub destroy_buffer : Buffer → Buffer
destroy_buffer b = record b { buf = []; size = 0 }

unfoldable pub reset_buffer : Buffer → Buffer
reset_buffer b = record b { pos = 0 }

-- The pointer as its offset in the block.
unfoldable pub buffer_start : Buffer → Outcome ℕ
buffer_start b = if b.allocated then done b.pos else abort

unfoldable pub buffer_space : Buffer → Outcome ℕ
buffer_space b = if leb b.pos b.size then done (b.size - b.pos) else abort

-- `none` is the result -1.
unfoldable pub buffer_shift : Buffer → ℕ → Option ℕ × Buffer
buffer_shift b shift =
    if ltb b.size (add_size b.pos shift)
    then (none, b)
    else (some (add_size b.pos shift), record b { pos = add_size b.pos shift })

-- `memmove(buf->buf, buf->buf + len, buf->pos - len); buf->pos -= len`, run at `len <= pos`
unfoldable pub drop_front : Buffer → ℕ → Buffer
drop_front b len = record b { buf = move_within b.buf 0 len (b.pos - len); pos = b.pos - len }

-- `got_block` tells whether `malloc(len + 1)` succeeds. The result is the block, its NUL included;
-- `none` is NULL.
unfoldable pub buffer_cut : Bool → Buffer → ℕ → Option Bytes × Buffer
unfolding drop_front
buffer_cut got_block b len =
    if ltb b.pos len
    then (none, b)
    else if not got_block
    then (none, b)
    else (some (take len b.buf ++ 0 ∷ []), drop_front b len)

-- What follows the assertion brings a larger `len` down to `pos`.
unfoldable pub buffer_clean : Buffer → ℕ → Outcome Buffer
unfolding drop_front
buffer_clean b len =
    if leb len b.pos then done (drop_front b (if ltb b.pos len then b.pos else len)) else abort

unfoldable pub is_buffer_empty : Buffer → Bool
is_buffer_empty b = b.pos == 0

-- `while (j < l && buf->buf[i + j] == string[j]) j++`: the final `j`, from the bytes at `i`
unfoldable pub match_len : Bytes → Bytes → ℕ
match_len at_i [] = 0
match_len [] (c ∷ cs) = 0
match_len (x ∷ xs) (c ∷ cs) = if x == c then suc (match_len xs cs) else 0

-- `for (i = ...; i < pos - l + 1; i++)` with the rounds that are left
unfoldable pub find_loop : ℕ → ℕ → Bytes → Bytes → Option ℕ
unfolding match_len
find_loop zero i mem string = none
find_loop (suc rounds) i mem string =
    let rest = find_loop rounds (suc i) mem string in
    if match_len (drop i mem) string == length string then some i else rest

-- `string` is the C string, without its NUL; `none` is the result -1.
unfoldable pub buffer_find : Buffer → Bytes → Option ℕ
unfolding find_loop
buffer_find b string =
    if ltb b.pos (length string) then none else find_loop (b.pos - length string + 1) 0 b.buf string
