-- ===== src/Buffer/Integers/RoundTrip.antt =====
-- What is written through `Append*` is read back through `ReadInt*` and `RetrieveAsString`, in
-- order.
use base_linux.Base.{
  ℕ, All, ◌+◌, ◌-◌, ◌^◌, ◌≤◌, ◌<◌, ◌≡◌, refl, sym, ap, ◌∙◌, Option, some, List, [], ◌∷◌, ◌++◌,
  append-nil, append_assoc, arith, length, take, drop, slice, take-slice, take-append,
  take-append_of_eq, drop-append_of_eq, length-append, ◌>>=◌,
}
use base_linux.Buffer.{Buffer, CopyBackward, append, retrieve_as_string}
use base_linux.Buffer.Space.{IsValid, contents, HandlesOverlap, Copied-of_overlap, length-contents}
use base_linux.Buffer.Contents.{retrieve_lem, append_lem, as_string_ok}
use base_linux.Buffer.Integers.{
  be_encode, peek_int, read_int, append_int64, append_int32, append_int16, append_int8,
}
use base_linux.Buffer.Integers.Encoding.{length-be_encode, be_decode-be_encode}

-- The bytes of a value at the front of the buffer are that value.
peek_int_lem :
    (n v : ℕ) (rest : List ℕ) {b : Buffer}
    → IsValid b
    → contents b ≡ be_encode n v ++ rest
    → v < 256 ^ n
    → peek_int n b ≡ some v
unfolding peek_int
peek_int_lem n v rest {b} valid e h =
    let n_le : n ≤ b.write_index - b.read_index = omega (
      arith,
      length-contents valid,
      ap length e,
      length-append (be_encode n v) rest,
      length-be_encode n v,
    ) in
    let bytes : slice b.buffer b.read_index n ≡ be_encode n v =
      sym (take-slice b.buffer b.read_index (b.write_index - b.read_index) n n_le)
      ∙ ap (take n) e
      ∙ take-append_of_eq n (be_encode n v) rest (length-be_encode n v) in
    ground (arith, n_le, bytes, be_decode-be_encode n v h)

read_int_lem :
    (n v : ℕ) (rest : List ℕ) {b : Buffer}
    → IsValid b
    → contents b ≡ be_encode n v ++ rest
    → v < 256 ^ n
    → (b' : Buffer) × (read_int n b ≡ some (v, b')) × IsValid b' × (contents b' ≡ rest)
unfolding read_int
read_int_lem n v rest {b} valid e h =
    let size : n ≤ length (contents b) =
      omega (arith, ap length e, length-append (be_encode n v) rest, length-be_encode n v) in
    let m = retrieve_lem n valid size in
    (
      m.0,
      ground (arith, peek_int_lem n v rest valid e h, m.1),
      m.2.valid,
      m.2.rest ∙ ap (drop n) e ∙ drop-append_of_eq n (be_encode n v) rest (length-be_encode n v),
    )

-- One value of a message, as the caller of `Append*` and `Read*` sees it.
pub data Field : Type 0 where
  int64 int32 int16 int8 : ℕ → Field
  text : List ℕ → Field

-- A value fits its type.
abbrev pub Fits : Field → Type 0
Fits (int64 v) = v < 2 ^ 64
Fits (int32 v) = v < 2 ^ 32
Fits (int16 v) = v < 2 ^ 16
Fits (int8 v) = v < 2 ^ 8
Fits (text xs) = Unit {0}

-- the bytes of a value on the wire
abbrev pub wire : Field → List ℕ
wire (int64 v) = be_encode 8 v
wire (int32 v) = be_encode 4 v
wire (int16 v) = be_encode 2 v
wire (int8 v) = be_encode 1 v
wire (text xs) = xs

abbrev pub wires : List Field → List ℕ
wires [] = []
wires (f ∷ fs) = wire f ++ wires fs

write_field : CopyBackward → Buffer → Field → Option Buffer
write_field std b (int64 v) = append_int64 std b v
write_field std b (int32 v) = append_int32 std b v
write_field std b (int16 v) = append_int16 std b v
write_field std b (int8 v) = append_int8 std b v
write_field std b (text xs) = append std b xs

pub write_fields : CopyBackward → Buffer → List Field → Option Buffer
write_fields std b [] = some b
write_fields std b (f ∷ fs) = do b' ← write_field std b f; write_fields std b' fs

-- Reads a value of the kind of the given one; of a text the reader knows the length.
read_like : Field → Buffer → Option (Field × Buffer)
read_like (int64 _) b = do (v, b') ← read_int 8 b; some (int64 v, b')
read_like (int32 _) b = do (v, b') ← read_int 4 b; some (int32 v, b')
read_like (int16 _) b = do (v, b') ← read_int 2 b; some (int16 v, b')
read_like (int8 _) b = do (v, b') ← read_int 1 b; some (int8 v, b')
read_like (text xs) b = do (ys, b') ← retrieve_as_string b (length xs); some (text ys, b')

pub read_all_like : List Field → Buffer → Option (List Field × Buffer)
read_all_like [] b = some ([], b)
read_all_like (f ∷ fs) b = do
  (g, b') ← read_like f b
  (gs, b'') ← read_all_like fs b'
  some (g ∷ gs, b'')

read_like_lem :
    (f : Field) (rest : List ℕ) {b : Buffer}
    → IsValid b
    → Fits f
    → contents b ≡ wire f ++ rest
    → (b' : Buffer) × (read_like f b ≡ some (f, b')) × IsValid b' × (contents b' ≡ rest)
unfolding read_like
read_like_lem (int64 v) rest valid h e =
    let m = read_int_lem 8 v rest valid e h in (m.0, rw (m.1), m.2, m.3)
read_like_lem (int32 v) rest valid h e =
    let m = read_int_lem 4 v rest valid e h in (m.0, rw (m.1), m.2, m.3)
read_like_lem (int16 v) rest valid h e =
    let m = read_int_lem 2 v rest valid e h in (m.0, rw (m.1), m.2, m.3)
read_like_lem (int8 v) rest valid h e =
    let m = read_int_lem 1 v rest valid e h in (m.0, rw (m.1), m.2, m.3)
read_like_lem (text xs) rest {b} valid h e =
    let m = as_string_ok (length xs) valid (omega (arith, ap length e, length-append xs rest)) in
    (
      m.0,
      rw (m.1) (ap (λ ys. some (text ys, m.0)) (ap (take (length xs)) e ∙ take-append xs rest)),
      m.2.valid,
      m.2.rest ∙ ap (drop (length xs)) e ∙ drop-append_of_eq (length xs) xs rest refl,
    )

read_all_like_lem :
    (fs : List Field) {b : Buffer}
    → IsValid b
    → All Fits fs
    → contents b ≡ wires fs
    → (b' : Buffer) × (read_all_like fs b ≡ some (fs, b')) × IsValid b' × (contents b' ≡ [])
unfolding read_all_like
read_all_like_lem [] {b} valid h e = (b, refl, valid, e)
read_all_like_lem (f ∷ fs) valid h e =
    let m = read_like_lem f (wires fs) valid h.0 e in
    let n = read_all_like_lem fs m.2 h.1 m.3 in (n.0, rw (m.1) (rw (n.1)), n.2, n.3)

write_field_lem :
    (std : CopyBackward) (f : Field) {b : Buffer}
    → HandlesOverlap std
    → IsValid b
    → b.write_index + length (wire f) < 2 ^ 63
    → (b' : Buffer) × (write_field std b f ≡ some b')
      × IsValid b'
      × (contents b' ≡ contents b ++ wire f)
      × (b'.write_index ≤ b.write_index + length (wire f))
unfolding write_field append_int64 append_int32 append_int16 append_int8
write_field_lem std (int64 v) o valid h = append_lem std _ valid (Copied-of_overlap std o valid) h
write_field_lem std (int32 v) o valid h = append_lem std _ valid (Copied-of_overlap std o valid) h
write_field_lem std (int16 v) o valid h = append_lem std _ valid (Copied-of_overlap std o valid) h
write_field_lem std (int8 v) o valid h = append_lem std _ valid (Copied-of_overlap std o valid) h
write_field_lem std (text xs) o valid h = append_lem std _ valid (Copied-of_overlap std o valid) h

write_fields_lem :
    (std : CopyBackward) (fs : List Field) {b : Buffer}
    → HandlesOverlap std
    → IsValid b
    → b.write_index + length (wires fs) < 2 ^ 63
    → (b' : Buffer) × (write_fields std b fs ≡ some b')
      × IsValid b'
      × (contents b' ≡ contents b ++ wires fs)
unfolding write_fields
write_fields_lem std [] {b} o valid h = (b, refl, valid, sym (append-nil (contents b)))
write_fields_lem std (f ∷ fs) {b} o valid h =
    let l = length-append (wire f) (wires fs) in
    let m = write_field_lem std f o valid (omega (arith, l)) in
    let n = write_fields_lem std fs {b = m.0} o m.2 (omega (arith, l, m.4)) in
    (
      n.0,
      rw (m.1) n.1,
      n.2,
      n.3 ∙ ap (λ xs. xs ++ wires fs) m.3 ∙ append_assoc (contents b) (wire f) (wires fs),
    )

-- Any sequence of values, appended to a valid buffer with nothing to read, is read back as it was
-- by the matching calls, which leave the buffer empty: no `assert` fails and no value is lost,
-- changed or reordered. The values fit their types, the storage stays below 2^63 bytes, and
-- `std::copy_backward` serves overlapping ranges.
pub read-write :
    (std : CopyBackward) (fs : List Field) {b : Buffer}
    → HandlesOverlap std
    → IsValid b
    → contents b ≡ []
    → All Fits fs
    → b.write_index + length (wires fs) < 2 ^ 63
    → (b' b'' : Buffer) × (write_fields std b fs ≡ some b')
      × (read_all_like fs b' ≡ some (fs, b''))
      × IsValid b''
      × (contents b'' ≡ [])
read-write std fs o valid e fits h =
    let m = write_fields_lem std fs o valid h in
    let n = read_all_like_lem fs {b = m.0} m.2 fits (m.3 ∙ ap (λ xs. xs ++ wires fs) e) in
    (m.0, n.0, m.1, n.1, n.2, n.3)
