-- ===== src/Buffer/Integers.antt =====
-- src/buffer.h: the calls that move integers, `PeekInt*`, `RetrieveInt*`, `AppendInt*` and
-- `ReadInt*`. An `intN_t` is its bit pattern, a number below 2^N. `memcpy` with `htobe*` or
-- `be*toh` writes and reads the bytes of that pattern, the most significant first.
pub mod Encoding
pub mod RoundTrip
use mathlib.Core.List.{reverse}
use base_linux.Base.{
  ℕ, zero, suc, ◌+◌, ◌*◌, ◌/◌, ◌%◌, Option, some, List, [], ◌∷◌, slice, leb, ◌>>=◌, ◌>>◌, assert,
}
use base_linux.Buffer.{Buffer, CopyBackward, readable_bytes, retrieve, append}

-- `n` bytes of a number, the least significant first
unfoldable pub le_encode : ℕ → ℕ → List ℕ
le_encode zero v = []
le_encode (suc n) v = (v % 256) ∷ le_encode n (v / 256)

pub le_decode : List ℕ → ℕ
le_decode [] = 0
le_decode (b ∷ bs) = b + 256 * le_decode bs

abbrev pub be_encode : ℕ → ℕ → List ℕ
be_encode n v = reverse (le_encode n v)

abbrev pub be_decode : List ℕ → ℕ
be_decode bs = le_decode (reverse bs)

-- The four `PeekInt*` differ in `sizeof` alone.
pub peek_int : ℕ → Buffer → Option ℕ
peek_int n b = do
  assert (leb n (readable_bytes b))
  some (be_decode (slice b.buffer b.read_index n))

abbrev pub peek_int64 : Buffer → Option ℕ
peek_int64 = peek_int 8

abbrev pub peek_int32 : Buffer → Option ℕ
peek_int32 = peek_int 4

abbrev pub peek_int16 : Buffer → Option ℕ
peek_int16 = peek_int 2

abbrev pub peek_int8 : Buffer → Option ℕ
peek_int8 = peek_int 1

abbrev pub retrieve_int64 : Buffer → Option Buffer
retrieve_int64 b = retrieve b 8

abbrev pub retrieve_int32 : Buffer → Option Buffer
retrieve_int32 b = retrieve b 4

abbrev pub retrieve_int16 : Buffer → Option Buffer
retrieve_int16 b = retrieve b 2

abbrev pub retrieve_int8 : Buffer → Option Buffer
retrieve_int8 b = retrieve b 1

-- The four `ReadInt*`: peek, then retrieve.
pub read_int : ℕ → Buffer → Option (ℕ × Buffer)
read_int n b = do value ← peek_int n b; b' ← retrieve b n; some (value, b')

abbrev pub read_int64 : Buffer → Option (ℕ × Buffer)
read_int64 = read_int 8

abbrev pub read_int32 : Buffer → Option (ℕ × Buffer)
read_int32 = read_int 4

abbrev pub read_int16 : Buffer → Option (ℕ × Buffer)
read_int16 = read_int 2

abbrev pub read_int8 : Buffer → Option (ℕ × Buffer)
read_int8 = read_int 1

module _ (std : CopyBackward) where
  pub append_int64 : Buffer → ℕ → Option Buffer
  append_int64 b value = append std b (be_encode 8 value)

  pub append_int32 : Buffer → ℕ → Option Buffer
  append_int32 b value = append std b (be_encode 4 value)

  pub append_int16 : Buffer → ℕ → Option Buffer
  append_int16 b value = append std b (be_encode 2 value)

  pub append_int8 : Buffer → ℕ → Option Buffer
  append_int8 b value = append std b (be_encode 1 value)
