-- ===== src/Buffer/Overlap.antt =====
-- `MakeSpace` calls `std::copy_backward` to move the readable bytes towards the start of the
-- storage. Where more is readable than has been read the ranges overlap in the way that the
-- standard excludes.
use base_linux.Base.{
  ℕ, ◌+◌, ◌-◌, ◌≤◌, ◌<◌, ◌≡◌, List, some, arith, length, slice, blit, ltb, leb, ◌&&◌, if◌then◌else◌,
}
use base_linux.Buffer.{Buffer, CopyBackward, make_space}
use base_linux.Buffer.Space.{IsValid}

-- A copy that does what the standard asks, and nothing where the standard leaves it undefined.
strict_copy : List ℕ → ℕ → ℕ → ℕ → List ℕ
strict_copy mem first last d_last =
    if ltb first d_last && leb d_last last
    then mem
    else blit mem (d_last - (last - first)) (slice mem first (last - first))

strict_copy_lem :
    (mem : List ℕ) (first last d_last : ℕ)
    → first ≤ last
    → last ≤ length mem
    → last - first ≤ d_last
    → d_last ≤ length mem
    → ¬ ((first < d_last) × (d_last ≤ last))
    → strict_copy mem first last d_last
      ≡ blit mem (d_last - (last - first)) (slice mem first (last - first))
unfolding strict_copy
strict_copy_lem mem first last d_last a b c d apart = ground arith

pub strict : CopyBackward
strict = record { copy = strict_copy; copy_lem = strict_copy_lem }

-- With a copy that keeps to the standard and does nothing beyond it, `MakeSpace` on any valid
-- buffer whose readable bytes outnumber those already read, and whose free storage suffices when
-- they move, moves nothing: the bytes from the start of the storage are taken for the readable
-- ones.
pub make_space-strict :
    {b : Buffer} (len : ℕ)
    → IsValid b
    → b.read_index < b.write_index - b.read_index
    → b.write_index - b.read_index + len ≤ length b.buffer
    → make_space strict b len
      ≡ some
          (record { read_index = 0; write_index = b.write_index - b.read_index; buffer = b.buffer })
unfolding make_space strict strict_copy
make_space-strict {b} len v over room = ground arith
