-- ===== src/Buffer/Contents.antt =====
-- What the operations of buffer.h do to the bytes in use: received bytes are queued at the end, and
-- commands are cut off the front.
use smtp_course_work.Base.{
  ℕ, ◌+◌, ◌-◌, ◌≤◌, ◌<◌, ◌≡◌, ◌⊎◌, inl, inr, refl, sym, ap, ◌∙◌, Bool, true, false, some, none,
  arith, Bytes, length, done, abort, take, drop, length-take, length-drop, write_at, take-write_at,
  take-split, ◌++◌, ◌∷◌, [], length-write_at,
}
use smtp_course_work.Buffer.{Buffer, buffer_shift, buffer_cut, buffer_clean, drop_front}
use smtp_course_work.Buffer.Bounds.{IsValid, drop_front-IsValid, buffer_shift_lem}

-- the bytes received and not yet cut
unfoldable pub contents : Buffer → Bytes
contents b = take b.pos b.buf

-- `recv(fd, buffer_start(buf), ...)` stores `bs` at the position.
unfoldable pub store_at_start : Buffer → Bytes → Buffer
store_at_start b bs = record b { buf = write_at b.buf b.pos bs }

pub length-contents : {b : Buffer} → IsValid b → length (contents b) ≡ b.pos
unfolding contents
length-contents {b} v = omega (arith, length-take b.pos b.buf)

-- the front dropped, for a length within the bytes in use
pub contents-drop_front :
    (b : Buffer) (len : ℕ)
    → IsValid b
    → len ≤ b.pos
    → contents b ≡ take len b.buf ++ contents (drop_front b len)
unfolding contents drop_front
contents-drop_front b len v h = sym (
    ap (λ r. take len b.buf ++ r) front
    ∙ take-split len (b.pos - len) b.buf
    ∙ ap (λ k. take k b.buf) (omega arith))
  where
    taken : Bytes
    taken = take (b.pos - len) (drop len b.buf)

    length_taken : length taken ≡ b.pos - len
    length_taken = omega (arith, length-take (b.pos - len) (drop len b.buf), length-drop len b.buf)

    front : take (b.pos - len) (write_at b.buf 0 taken) ≡ taken
    front =
        ap (λ k. take k (write_at b.buf 0 taken)) (omega (arith, length_taken))
        ∙ take-write_at b.buf 0 taken (omega (arith, length_taken))

store-IsValid :
    (b : Buffer) (bs : Bytes)
    → IsValid b
    → b.pos + length bs ≤ b.size
    → IsValid (store_at_start b bs)
unfolding store_at_start
store-IsValid b bs v h = record {
  is_allocated = v.is_allocated;
  block = omega (arith, length-write_at b.buf b.pos bs);
  in_use = v.in_use;
  small = v.small;
}

cut_eq :
    (b : Buffer) (len : ℕ)
    → len ≤ b.pos
    → buffer_cut true b len ≡ (some (take len b.buf ++ 0 ∷ []), drop_front b len)
unfolding buffer_cut
cut_eq b len h = ground arith

clean_eq : (b : Buffer) (len : ℕ) → len ≤ b.pos → buffer_clean b len ≡ done (drop_front b len)
unfolding buffer_clean
clean_eq b len h = ground arith

clean_abort : (b : Buffer) (len : ℕ) → b.pos < len → buffer_clean b len ≡ abort
unfolding buffer_clean
clean_abort b len h = ground arith

-- In a valid buffer with room for them, storing received bytes at the start pointer and shifting
-- by their number appends them to the contents, and keeps the buffer valid and its size.
pub contents-store-shift :
    (b : Buffer) (bs : Bytes)
    → IsValid b
    → b.pos + length bs ≤ b.size
    → let b' = (buffer_shift (store_at_start b bs) (length bs)).1 in
      (contents b' ≡ contents b ++ bs)
      × IsValid b'
      × (b'.pos ≡ b.pos + length bs)
      × (b'.size ≡ b.size)
unfolding contents store_at_start buffer_shift
contents-store-shift b bs v h = rw (buffer_shift_lem (length bs) (store-IsValid b bs v h) h) (
  take-write_at b.buf b.pos bs (omega (arith, v.block)),
  record {
    is_allocated = v.is_allocated;
    block = (store-IsValid b bs v h).block;
    in_use = h;
    small = v.small;
  },
  refl,
  refl,
)

-- `buffer_cut` of a valid buffer, of at most `pos` bytes and with memory for the block: the block
-- holds the first `len` bytes and a NUL, the contents were those bytes and what is left, and the
-- buffer stays valid.
pub buffer_cut_lem :
    (b : Buffer) (len : ℕ)
    → IsValid b
    → len ≤ b.pos
    → (front : Bytes) × ((buffer_cut true b len).0 ≡ some (front ++ 0 ∷ []))
      × (length front ≡ len)
      × (contents b ≡ front ++ contents (buffer_cut true b len).1)
      × IsValid (buffer_cut true b len).1
buffer_cut_lem b len v h = rw (cut_eq b len h) (
  take len b.buf,
  refl,
  omega (arith, length-take len b.buf),
  contents-drop_front b len v h,
  drop_front-IsValid len v h,
)

-- `buffer_cut` that asks for too much, or has no memory, returns NULL and leaves the buffer.
pub buffer_cut-none :
    (got_block : Bool) (b : Buffer) (len : ℕ)
    → (b.pos < len) ⊎ (got_block ≡ false)
    → buffer_cut got_block b len ≡ (none, b)
unfolding buffer_cut
buffer_cut-none got_block b len (inl h) = ground arith
buffer_cut-none got_block b len (inr h) = ground arith

-- `buffer_clean` of at most `pos` bytes drops them from the contents; more stop the process.
pub buffer_clean_lem :
    (b : Buffer) (len : ℕ)
    → IsValid b
    → (len ≤ b.pos
        → (front : Bytes) × (b' : Buffer) × (buffer_clean b len ≡ done b')
          × (length front ≡ len)
          × (contents b ≡ front ++ contents b')
          × IsValid b')
      × (b.pos < len → buffer_clean b len ≡ abort)
buffer_clean_lem b len v = (
  λ h. (
    take len b.buf,
    drop_front b len,
    clean_eq b len h,
    omega (arith, length-take len b.buf),
    contents-drop_front b len v h,
    drop_front-IsValid len v h,
  ),
  λ h. clean_abort b len h,
)
