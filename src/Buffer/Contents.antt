-- ===== src/Buffer/Contents.antt =====
-- What the calls of `Buffer` do to its readable bytes: `Append` adds at the end, `Retrieve` takes
-- from the front, and no `assert` fails where the caller stays within the bytes that are there.
use base_linux.Base.{
  ℕ, ◌+◌, ◌-◌, ◌^◌, ◌≤◌, ◌<◌, ◌≡◌, refl, sym, ap, ◌∙◌, inl, inr, some, none, List, [], ◌++◌, arith,
  length, take, drop, drop_all, take_all, dec_lt, ◌⊎◌, slice, blit, length-blit, slice-blit,
  drop-slice, take-slice, ltb, Bool-cases,
}
use base_linux.Buffer.{
  Buffer, CopyBackward, readable_bytes, writable_bytes, ensure_writable_bytes, has_written, append,
  retrieve, retrieve_all, retrieve_until, retrieve_as_string, retrieve_all_as_string,
}
use base_linux.Buffer.Space.{
  IsValid, contents, Copied, HasRoom, make_space_lem, readable_bytes_lem, length-contents,
}

module _ (std : CopyBackward) where
  pub ensure_writable_bytes_lem :
      {b : Buffer} (len : ℕ)
      → IsValid b
      → Copied std b
      → b.write_index + len < 2 ^ 63
      → (b' : Buffer) × (ensure_writable_bytes std b len ≡ some b') × HasRoom b len b'
  unfolding ensure_writable_bytes
  ensure_writable_bytes_lem {b} len v c small = elim (Bool-cases (ltb (writable_bytes b) len)) [
    | inl e ↦
        let m = make_space_lem std len v c (ground arith) small in
        (m.0, ground (arith, e, m.1, m.2), m.2)
    | inr e ↦ (
      b,
      ground (arith, e),
      record { valid = v; kept = refl; room = ground arith; low = omega arith },
    )
  ]

-- The bytes land behind those that are there.
has_written-HasRoom :
    {b b' : Buffer} (dat : List ℕ)
    → HasRoom b (length dat) b'
    → (b'' : Buffer) × (has_written
          (record b' { buffer = blit b'.buffer b'.write_index dat })
          (length dat)
        ≡ some b'')
      × IsValid b''
      × (contents b'' ≡ contents b ++ dat)
      × (b''.write_index ≡ b'.write_index + length dat)
unfolding has_written
has_written-HasRoom {b} {b'} dat h = (
  record b' {
    buffer = blit b'.buffer b'.write_index dat;
    write_index = b'.write_index + length dat;
  },
  ground (arith, length-blit b'.buffer b'.write_index dat),
  omega (arith, length-blit b'.buffer b'.write_index dat),
  slice-blit b'.buffer b'.read_index (b'.write_index - b'.read_index) b'.write_index
        (b'.write_index + length dat - b'.read_index) dat (omega arith) (omega arith) h.room
      ∙ ap (λ xs. xs ++ dat) h.kept,
  refl,
)

module _ (std : CopyBackward) where
  -- `Append` on a valid buffer trips no `assert`, keeps the invariant and puts the bytes behind
  -- the readable ones, provided that the storage stays below 2^63 bytes and that the copy of
  -- `MakeSpace` puts the readable bytes where it should.
  pub append_lem :
      {b : Buffer} (dat : List ℕ)
      → IsValid b
      → Copied std b
      → b.write_index + length dat < 2 ^ 63
      → (b' : Buffer) × (append std b dat ≡ some b')
        × IsValid b'
        × (contents b' ≡ contents b ++ dat)
        × (b'.write_index ≤ b.write_index + length dat)
  unfolding append
  append_lem {b} dat v c small =
      let m = ensure_writable_bytes_lem std (length dat) v c small in
      let n = has_written-HasRoom {b = b} {b' = m.0} dat m.2 in
      (n.0, rw (m.1) n.1, n.2, n.3, omega (arith, n.4, m.2.low))

-- What a call that takes `len` bytes from the front leaves.
pub record Taken (b : Buffer) (len : ℕ) (b' : Buffer) : Type 0 where
  pub valid : IsValid b'
  pub rest : contents b' ≡ drop len (contents b)

retrieve_part :
    {b : Buffer} (len : ℕ)
    → IsValid b
    → len < b.write_index - b.read_index
    → Taken b len (record b { read_index = b.read_index + len })
retrieve_part {b} len v h = record {
  valid = omega arith;
  rest =
      ap (slice b.buffer (b.read_index + len)) (omega arith)
      ∙ sym (drop-slice b.buffer b.read_index (b.write_index - b.read_index) len (omega arith));
}

retrieve_whole :
    {b : Buffer} (len : ℕ)
    → IsValid b
    → b.write_index - b.read_index ≤ len
    → Taken b len (retrieve_all b)
unfolding retrieve_all
retrieve_whole {b} len v h = record {
  valid = omega arith;
  rest = sym (drop_all (contents b) len (omega (arith, length-contents v)));
}

-- `Retrieve` of at most the readable bytes trips no `assert`, keeps the invariant, and takes
-- exactly the first `len` bytes.
pub retrieve_lem :
    {b : Buffer} (len : ℕ)
    → IsValid b
    → len ≤ length (contents b)
    → (b' : Buffer) × (retrieve b len ≡ some b') × Taken b len b'
unfolding retrieve
retrieve_lem {b} len v h = elim (Bool-cases (ltb len (readable_bytes b))) [
  | inl e ↦ (
    record b { read_index = b.read_index + len },
    ground (arith, e, length-contents v),
    retrieve_part len v (ground (arith, e)),
  )
  | inr e ↦ (
    retrieve_all b,
    ground (arith, e, length-contents v),
    retrieve_whole len v (ground (arith, e)),
  )
]

-- Asking for more than there is fails the `assert`.
pub retrieve_too_much :
    {b : Buffer} (len : ℕ) → IsValid b → length (contents b) < len → retrieve b len ≡ none
unfolding retrieve
retrieve_too_much {b} len v h = ground (arith, length-contents v)

pub as_string_ok :
    {b : Buffer} (len : ℕ)
    → IsValid b
    → len ≤ length (contents b)
    → (b' : Buffer) × (retrieve_as_string b len ≡ some (take len (contents b), b')) × Taken b len b'
unfolding retrieve_as_string
as_string_ok {b} len v h =
    let n = length-contents v in
    let m = retrieve_lem len v h in
    let t =
      take-slice b.buffer b.read_index (b.write_index - b.read_index) len (omega (arith, n)) in
    (m.0, ground (arith, m.1, n, t), m.2)

as_string_too_much :
    {b : Buffer} (len : ℕ) → IsValid b → length (contents b) < len → retrieve_as_string b len ≡ none
unfolding retrieve_as_string
as_string_too_much {b} len v h = ground (arith, length-contents v)

-- `RetrieveAsString` hands out the first `len` readable bytes and takes them from the buffer; with
-- more than the readable bytes it fails its `assert`.
pub retrieve_as_string_lem :
    {b : Buffer} (len : ℕ)
    → IsValid b
    → ((len ≤ length (contents b))
        × (b' : Buffer) × (retrieve_as_string b len ≡ some (take len (contents b), b'))
        × Taken b len b')
      ⊎ ((length (contents b) < len) × (retrieve_as_string b len ≡ none))
retrieve_as_string_lem {b} len v = elim (dec_lt (length (contents b)) len) [
  | yes p ↦ inr (p, as_string_too_much len v p)
  | no p ↦
      let h : len ≤ length (contents b) = omega arith in
      let m = as_string_ok len v h in inl (h, m.0, m.1, m.2)
]

-- `RetrieveAllAsString` hands out all readable bytes and leaves none.
pub retrieve_all_as_string_lem :
    {b : Buffer}
    → IsValid b
    → (b' : Buffer) × (retrieve_all_as_string b ≡ some (contents b, b'))
      × IsValid b'
      × (contents b' ≡ [])
unfolding retrieve_all_as_string
retrieve_all_as_string_lem {b} v =
    let n = length-contents v in
    let m = as_string_ok (length (contents b)) v (omega arith) in
    (
      m.0,
      ap (retrieve_as_string b) (readable_bytes_lem v ∙ sym n)
          ∙ m.1
          ∙ ap (λ xs. some (xs, m.0)) (take_all (contents b) (length (contents b)) (omega arith)),
      m.2.valid,
      m.2.rest ∙ drop_all (contents b) _ (omega arith),
    )

-- `RetrieveUntil(end)` for a pointer `end` into the readable bytes takes the bytes before `end`.
pub retrieve_until_lem :
    {b : Buffer} (end : ℕ)
    → IsValid b
    → b.read_index ≤ end
    → end ≤ b.write_index
    → (b' : Buffer) × (retrieve_until b end ≡ some b') × Taken b (end - b.read_index) b'
unfolding retrieve_until
retrieve_until_lem {b} end v lo hi =
    let n = length-contents v in
    let m = retrieve_lem (end - b.read_index) v (omega (arith, n)) in
    (m.0, ground (arith, m.1), m.2)
