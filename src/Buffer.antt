-- ===== src/Buffer.antt =====
-- src/buffer.h and src/buffer.cc: the byte buffer of a connection, all of it but the integer
-- calls, which are in Buffer/Integers.antt. A pointer into the storage is an index into it. A
-- method that can fail an `assert` returns `none` there.
pub mod Integers
pub mod Space
pub mod Contents
pub mod Search
pub mod Reading
pub mod Overlap
mod Tests
use base_linux.Base.{
  ◌%◌, ◌^◌, ℕ, suc, ◌+◌, ◌-◌, ◌*◌, ◌≤◌, ◌<◌, ◌≡◌, Bool, true, false, ◌&&◌, Option, none, some, List,
  [], ◌∷◌, ◌++◌, length, take, drop, replicate, slice, blit, add_size, sub_size, ltb, leb, ◌==◌,
  if◌then◌else◌, ◌>>=◌, ◌>>◌, assert,
}
use base_linux.Base.Int.{ℤ, pos, negsuc}

pub record Buffer : Type 0 where
  pub read_index : ℕ
  pub write_index : ℕ
  pub buffer : List ℕ

-- `std::copy_backward(first, last, d_last)` within one array. The standard defines its result where
-- `d_last` is not in `(first, last]`.
pub record CopyBackward : Type 0 where
  pub copy : List ℕ → ℕ → ℕ → ℕ → List ℕ
  pub copy_lem :
      (mem : List ℕ) (first last d_last : ℕ)
      → first ≤ last
      → last ≤ length mem
      → last - first ≤ d_last
      → d_last ≤ length mem
      → ¬ ((first < d_last) × (d_last ≤ last))
      → copy mem first last d_last
        ≡ blit mem (d_last - (last - first)) (slice mem first (last - first))

abbrev pub initial_size : ℕ
initial_size = 1024

pub fresh : Buffer
fresh = record { read_index = 0; write_index = 0; buffer = replicate initial_size 0 }

abbrev pub readable_bytes : Buffer → ℕ
readable_bytes b = sub_size b.write_index b.read_index

abbrev pub writable_bytes : Buffer → ℕ
writable_bytes b = sub_size (length b.buffer) b.write_index

pub retrieve_all : Buffer → Buffer
retrieve_all b = record b { read_index = 0; write_index = 0 }

pub retrieve : Buffer → ℕ → Option Buffer
unfolding retrieve_all
retrieve b len = do
  assert (leb len (readable_bytes b))
  some (
      if ltb len (readable_bytes b)
      then record b { read_index = add_size b.read_index len }
      else retrieve_all b)

pub retrieve_until : Buffer → ℕ → Option Buffer
retrieve_until b end = do
  assert (leb b.read_index end)
  assert (leb end b.write_index)
  retrieve b (sub_size end b.read_index)

pub retrieve_as_string : Buffer → ℕ → Option (List ℕ × Buffer)
retrieve_as_string b len = do
  assert (leb len (readable_bytes b))
  let result = slice b.buffer b.read_index len
  b' ← retrieve b len
  some (result, b')

pub retrieve_all_as_string : Buffer → Option (List ℕ × Buffer)
retrieve_all_as_string b = retrieve_as_string b (readable_bytes b)

pub has_written : Buffer → ℕ → Option Buffer
has_written b len = do
  assert (leb len (writable_bytes b))
  some (record b { write_index = add_size b.write_index len })

-- `std::vector::resize`
abbrev pub resize : List ℕ → ℕ → List ℕ
resize mem n = take n mem ++ replicate (n - length mem) 0

module _ (std : CopyBackward) where
  pub make_space : Buffer → ℕ → Option Buffer
  make_space b len =
      if ltb (add_size (writable_bytes b) b.read_index) len
      then (do
        assert (ltb (length b.buffer) (add_size b.write_index len))
        some (record b { buffer = resize b.buffer (add_size b.write_index len) }))
      else some (record {
        read_index = 0;
        write_index = readable_bytes b;
        buffer = std.copy b.buffer b.read_index b.write_index (readable_bytes b);
      })

  pub ensure_writable_bytes : Buffer → ℕ → Option Buffer
  ensure_writable_bytes b len = do
    b' ← if ltb (writable_bytes b) len then make_space b len else some b
    assert (leb len (writable_bytes b'))
    some b'

  pub append : Buffer → List ℕ → Option Buffer
  append b dat = do
    b' ← ensure_writable_bytes b (length dat)
    has_written (record b' { buffer = blit b'.buffer b'.write_index dat }) (length dat)

-- The position of the first "\r\n" in the bytes, or their number: `std::search`.
pub search_crlf : List ℕ → ℕ
search_crlf [] = 0
search_crlf (x ∷ []) = 1
search_crlf (x ∷ y ∷ ys) = if x == 13 && y == 10 then 0 else suc (search_crlf (y ∷ ys))

pub find_crlf : Buffer → Option ℕ
unfolding search_crlf
find_crlf b =
    let crlf = b.read_index + search_crlf (slice b.buffer b.read_index (readable_bytes b)) in
    if crlf == b.write_index then none else some crlf

pub find_crlf_from : Buffer → ℕ → Option ℕ
unfolding search_crlf
find_crlf_from b start =
    let crlf = start + search_crlf (slice b.buffer start (b.write_index - start)) in
    if leb b.write_index start then none else if crlf == b.write_index then none else some crlf

-- What `readv` does: it fails with an `errno`, or it delivers bytes, at most as many as the two
-- vectors hold.
pub data Readv : Type 0 where
  failed : ℕ → Readv
  delivered : List ℕ → Readv

-- `sizeof(t_extra_buf)`
abbrev pub extra_size : ℕ
extra_size = 1024 * 32

-- `static_cast<int>` of a number that is not negative
unfoldable pub to_int : ℕ → ℤ
to_int n = let low = n % 2 ^ 32 in if ltb low (2 ^ 31) then pos low else negsuc (2 ^ 32 - 1 - low)

-- The returned length, `*saved_errno` if it is written, and the buffer.
pub read_fd : CopyBackward → Buffer → Readv → Option (ℤ × Option ℕ × Buffer)
read_fd std b (failed e) = some (negsuc 0, some e, b)
read_fd std b (delivered bytes) =
    let filled = record b {
      buffer = blit b.buffer b.write_index (take (writable_bytes b) bytes);
    } in
    if leb (length bytes) (writable_bytes b)
    then some (
      to_int (length bytes),
      none,
      record filled { write_index = add_size b.write_index (length bytes) },
    )
    else (do
      b' ←
          append std (record filled { write_index = length b.buffer })
            (drop (writable_bytes b) bytes)
      some (to_int (length bytes), none, b'))
