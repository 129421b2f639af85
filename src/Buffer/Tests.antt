-- ===== src/Buffer/Tests.antt =====
-- Runs of the buffer, and the theorems at concrete inputs.
use base_linux.Base.{◌-◌, ◌^◌, ◌≤◌, ◌≡◌, refl, none, some, List, [], ◌∷◌, arith, drop, slice, blit}
use base_linux.Base.Int.{pos}
use base_linux.Buffer.{Buffer, CopyBackward, delivered, append, find_crlf_from, read_fd}
use base_linux.Buffer.Space.{IsValid, contents, HandlesOverlap, Copied-of_overlap}
use base_linux.Buffer.Contents.{append_lem}
use base_linux.Buffer.Integers.{le_encode}
use base_linux.Buffer.Integers.RoundTrip.{
  Field, int64, int32, int16, int8, text, write_fields, read_all_like, read-write,
}
use base_linux.Buffer.Search.{Finds, find_crlf_from_lem}
use base_linux.Buffer.Reading.{read_fd_lem}

-- A copy that serves every pair of ranges.
memmove : CopyBackward
memmove = record {
  copy =
      λ mem first last d_last. blit mem (d_last - (last - first)) (slice mem first (last - first));
  copy_lem = λ mem first last d_last _ _ _ _ _. refl;
}

memmove-HandlesOverlap : HandlesOverlap memmove
unfolding memmove
memmove-HandlesOverlap mem first last d_last _ _ _ _ = refl

-- Eight cells, one byte read, "a\r\nb" readable.
abbrev line : Buffer
line = record { read_index = 1; write_index = 5; buffer = 90 ∷ 97 ∷ 13 ∷ 10 ∷ 98 ∷ 0 ∷ 0 ∷ 0 ∷ [] }

line-IsValid : IsValid line
line-IsValid = omega arith

abbrev drained : Buffer
drained = record { read_index = 2; write_index = 2; buffer = 1 ∷ 2 ∷ 3 ∷ [] }

abbrev message : List Field
message = int64 (2 ^ 64 - 1) ∷ int32 7 ∷ int16 300 ∷ int8 255 ∷ text (104 ∷ 97 ∷ []) ∷ []

append_lem_example :
    (b' : Buffer) × (append memmove line (1 ∷ 2 ∷ 3 ∷ 4 ∷ []) ≡ some b')
    × IsValid b'
    × (contents b' ≡ 97 ∷ 13 ∷ 10 ∷ 98 ∷ 1 ∷ 2 ∷ 3 ∷ 4 ∷ [])
    × (b'.write_index ≤ 9)
append_lem_example =
    append_lem memmove {b = line} (1 ∷ 2 ∷ 3 ∷ 4 ∷ []) line-IsValid
      (Copied-of_overlap memmove {b = line} memmove-HandlesOverlap line-IsValid) (omega arith)

read-write_example :
    (b' b'' : Buffer) × (write_fields memmove drained message ≡ some b')
    × (read_all_like message b' ≡ some (message, b''))
    × IsValid b''
    × (contents b'' ≡ [])
unfolding le_encode
read-write_example =
    read-write memmove message {b = drained} memmove-HandlesOverlap (omega arith) refl (omega arith)
      (omega arith)

find_crlf_from_lem_example : Finds (drop 2 (contents line)) 3 (find_crlf_from line 3)
find_crlf_from_lem_example = find_crlf_from_lem {b = line} 3 line-IsValid (omega arith)

read_fd_lem_example :
    (b' : Buffer) × (read_fd memmove line (delivered (5 ∷ 6 ∷ 7 ∷ 8 ∷ 9 ∷ []))
      ≡ some (pos 5, none, b'))
    × IsValid b'
    × (contents b' ≡ 97 ∷ 13 ∷ 10 ∷ 98 ∷ 5 ∷ 6 ∷ 7 ∷ 8 ∷ 9 ∷ [])
read_fd_lem_example =
    read_fd_lem memmove (5 ∷ 6 ∷ 7 ∷ 8 ∷ 9 ∷ []) {b = line} memmove-HandlesOverlap line-IsValid
      (omega arith) (omega arith)
