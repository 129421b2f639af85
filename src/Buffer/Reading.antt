-- ===== src/Buffer/Reading.antt =====
-- src/buffer.cc, `Buffer::ReadFd`: one `readv` into the free storage and a spare array.
use base_linux.Base.{
  ℕ, ◌+◌, ◌-◌, ◌^◌, ◌≤◌, ◌<◌, ◌≡◌, refl, ap, ◌∙◌, inl, inr, none, some, List, ◌++◌, append_assoc,
  arith, length, take, drop, blit, slice-blit, length-blit, length-take, length-drop, take_all,
  take-append-drop, leb, Bool-cases,
}
use base_linux.Base.Int.{pos, negsuc}
use base_linux.Buffer.{Buffer, CopyBackward, delivered, failed, to_int, read_fd, writable_bytes}
use base_linux.Buffer.Space.{IsValid, contents, HandlesOverlap, Copied-of_overlap}
use base_linux.Buffer.Contents.{append_lem}

-- the buffer after the first vector has been filled with `xs`
filled : Buffer → List ℕ → Buffer
filled b xs = record b {
  buffer = blit b.buffer b.write_index xs;
  write_index = b.write_index + length xs;
}

filled-IsValid :
    {b : Buffer} (xs : List ℕ)
    → IsValid b
    → b.write_index + length xs ≤ length b.buffer
    → IsValid (filled b xs)
unfolding filled
filled-IsValid {b} xs v h = omega (arith, length-blit b.buffer b.write_index xs)

contents-filled :
    {b : Buffer} (xs : List ℕ)
    → IsValid b
    → b.write_index + length xs ≤ length b.buffer
    → contents (filled b xs) ≡ contents b ++ xs
unfolding filled
contents-filled {b} xs v h =
    slice-blit b.buffer b.read_index (b.write_index - b.read_index) b.write_index
      (b.write_index + length xs - b.read_index) xs (omega arith) (omega arith) h

-- An `int` holds what one call of `readv` delivers.
to_int_lem : (n : ℕ) → n < 2 ^ 31 → to_int n ≡ pos n
unfolding to_int
to_int_lem n h = ground (arith, h)

-- ReadFd, when readv delivers bytes, returns their number and leaves all of them in order behind
-- the readable bytes, whether they fit into the free storage or spill into the spare array; no
-- assert fails, the invariant is kept and *saved_errno is not written, while the storage and the
-- bytes together stay below 2^63, the bytes are fewer than 2^31, as the kernel sees to, and
-- std::copy_backward serves overlapping ranges.
pub read_fd_lem :
    (std : CopyBackward) (bytes : List ℕ) {b : Buffer}
    → HandlesOverlap std
    → IsValid b
    → length b.buffer + length bytes < 2 ^ 63
    → length bytes < 2 ^ 31
    → (b' : Buffer) × (read_fd std b (delivered bytes) ≡ some (pos (length bytes), none, b'))
      × IsValid b'
      × (contents b' ≡ contents b ++ bytes)
unfolding read_fd filled
read_fd_lem std bytes {b} o v small int =
    elim (Bool-cases (leb (length bytes) (writable_bytes b))) [
      | inl e ↦
          let t = take_all bytes (writable_bytes b) (ground (arith, e)) in
          let fits : b.write_index + length bytes ≤ length b.buffer = ground (arith, e) in
          (
            filled b bytes,
            ground (arith, e, t, to_int_lem (length bytes) int),
            filled-IsValid bytes v fits,
            contents-filled bytes v fits,
          )
      | inr e ↦
          let first = take (writable_bytes b) bytes in
          let rest = drop (writable_bytes b) bytes in
          let more : writable_bytes b < length bytes = ground (arith, e) in
          let full : b.write_index + length first ≡ length b.buffer =
            omega (arith, length-take (writable_bytes b) bytes) in
          let fits : b.write_index + length first ≤ length b.buffer = omega arith in
          let v' = filled-IsValid first v fits in
          let m =
            append_lem std rest v' (Copied-of_overlap std o v')
              (omega (arith, length-drop (writable_bytes b) bytes)) in
          (
            m.0,
            ground (arith, e, full, m.1, to_int_lem (length bytes) int),
            m.2,
            m.3
                ∙ ap (λ xs. xs ++ rest) (contents-filled first v fits)
                ∙ append_assoc (contents b) first rest
                ∙ ap (◌++◌ (contents b)) (take-append-drop (writable_bytes b) bytes),
          )
    ]

-- When `readv` fails, `ReadFd` answers -1 and the `errno`, and the buffer is as before.
pub read_fd-failed :
    (std : CopyBackward) (b : Buffer) (e : ℕ)
    → read_fd std b (failed e) ≡ some (negsuc 0, some e, b)
unfolding read_fd
read_fd-failed std b e = refl
