-- ===== src/Buffer/Bounds.antt =====
-- The invariant of `struct buffer`: the position lies in the block, and no sum wraps.
use smtp_course_work.Base.{
  ℕ, ◌+◌, ◌-◌, ◌^◌, ◌≤◌, ◌<◌, ◌≡◌, true, some, arith, Bytes, length, done, take, drop, length-take,
  length-drop, length-write_at,
}
use smtp_course_work.Buffer.{
  Buffer, init_buffer, reset_buffer, buffer_start, buffer_space, buffer_shift, drop_front,
}

pub record IsValid (b : Buffer) : Type 0 where
  pub is_allocated : b.allocated ≡ true
  pub block : length b.buf ≡ b.size
  pub in_use : b.pos ≤ b.size
  pub small : b.size < 2 ^ 63

-- What `init_buffer` makes of a block of the size asked for is valid.
pub init_buffer-IsValid :
    (block : Bytes) (size : ℕ)
    → length block ≡ size
    → size < 2 ^ 63
    → IsValid (init_buffer (some block) size).1
unfolding init_buffer
init_buffer-IsValid block size h small = ground arith

pub reset_buffer-IsValid : {b : Buffer} → IsValid b → IsValid (reset_buffer b)
unfolding reset_buffer
reset_buffer-IsValid v = ground arith

pub buffer_space_lem : {b : Buffer} → IsValid b → buffer_space b ≡ done (b.size - b.pos)
unfolding buffer_space
buffer_space_lem v = ground arith

pub buffer_start_lem : {b : Buffer} → IsValid b → buffer_start b ≡ done b.pos
unfolding buffer_start
buffer_start_lem v = ground arith

pub buffer_shift_lem :
    {b : Buffer} (n : ℕ)
    → IsValid b
    → b.pos + n ≤ b.size
    → buffer_shift b n ≡ (some (b.pos + n), record b { pos = b.pos + n })
unfolding buffer_shift
buffer_shift_lem n v h = ground arith

pub drop_front-IsValid :
    {b : Buffer} (len : ℕ) → IsValid b → len ≤ b.pos → IsValid (drop_front b len)
unfolding drop_front
drop_front-IsValid {b} len v h =
    let front = take (b.pos - len) (drop len b.buf) in
    let e : length front ≡ b.pos - len =
      omega (arith, length-take (b.pos - len) (drop len b.buf), length-drop len b.buf) in
    record {
      is_allocated = v.is_allocated;
      block = omega (arith, length-write_at b.buf 0 front);
      in_use = omega arith;
      small = v.small;
    }
