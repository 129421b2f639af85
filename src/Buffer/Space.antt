-- ===== src/Buffer/Space.antt =====
-- The representation invariant of `Buffer`, and the space management under `Append`.
use base_linux.Base.{
  ℕ, ◌+◌, ◌-◌, ◌^◌, ◌≤◌, ◌<◌, ◌≡◌, ap, ◌∙◌, inl, inr, some, List, [], refl, arith, length, take,
  drop, replicate, slice, blit, length-append, length-take, length-drop, length-replicate,
  length-blit, take_all, slice-blit-zero, slice-append, ltb, add_size, Bool-cases,
}
use base_linux.Buffer.{
  Buffer, fresh, CopyBackward, readable_bytes, writable_bytes, resize, make_space,
}

pub record IsValid (b : Buffer) : Type 0 where
  pub ordered : b.read_index ≤ b.write_index
  pub within : b.write_index ≤ length b.buffer
  pub small : length b.buffer < 2 ^ 63

-- the readable bytes
abbrev pub contents : Buffer → List ℕ
contents b = slice b.buffer b.read_index (b.write_index - b.read_index)

pub readable_bytes_lem : {b : Buffer} → IsValid b → readable_bytes b ≡ b.write_index - b.read_index
readable_bytes_lem v = omega arith

pub writable_bytes_lem :
    {b : Buffer} → IsValid b → writable_bytes b ≡ length b.buffer - b.write_index
writable_bytes_lem v = omega arith

pub length-contents : {b : Buffer} → IsValid b → length (contents b) ≡ b.write_index - b.read_index
length-contents {b} v = omega (
  arith,
  length-take (b.write_index - b.read_index) (drop b.read_index b.buffer),
  length-drop b.read_index b.buffer,
)

-- The copy of `make_space` puts the readable bytes at the start of the storage.
abbrev pub Copied : CopyBackward → Buffer → Type 0
Copied std b =
    std.copy b.buffer b.read_index b.write_index (readable_bytes b) ≡ blit b.buffer 0 (contents b)

-- A copy that serves overlapping ranges as well, as `memmove` does.
abbrev pub HandlesOverlap : CopyBackward → Type 0
HandlesOverlap std =
    (mem : List ℕ) (first last d_last : ℕ)
    → first ≤ last
    → last ≤ length mem
    → last - first ≤ d_last
    → d_last ≤ length mem
    → std.copy mem first last d_last
      ≡ blit mem (d_last - (last - first)) (slice mem first (last - first))

pub Copied-of_overlap :
    (std : CopyBackward) {b : Buffer} → HandlesOverlap std → IsValid b → Copied std b
Copied-of_overlap std {b} h v =
    h b.buffer b.read_index b.write_index (readable_bytes b) v.ordered v.within (omega arith)
      (omega arith)
    ∙ ap (λ k. blit b.buffer k (contents b)) (omega arith)

pub Copied-of_apart :
    (std : CopyBackward) {b : Buffer}
    → IsValid b
    → b.write_index - b.read_index ≤ b.read_index
    → Copied std b
Copied-of_apart std {b} v h =
    std.copy_lem b.buffer b.read_index b.write_index (readable_bytes b) v.ordered v.within
      (omega arith) (omega arith) (λ p. omega arith)
    ∙ ap (λ k. blit b.buffer k (contents b)) (omega arith)

slice-resize :
    (mem : List ℕ) (r n k : ℕ)
    → r + n ≤ length mem
    → length mem ≤ k
    → slice (resize mem k) r n ≡ slice mem r n
slice-resize mem r n k h g =
    rw (take_all mem k g) (slice-append mem (replicate (k - length mem) 0) r n h)

length-resize : (mem : List ℕ) (k : ℕ) → length mem ≤ k → length (resize mem k) ≡ k
length-resize mem k g = omega (
  arith,
  length-append (take k mem) (replicate (k - length mem) 0),
  length-take k mem,
  length-replicate {A = ℕ} (k - length mem) 0,
)

-- What `make_space` leaves: the same bytes, with room for `len` more behind them.
pub record HasRoom (b : Buffer) (len : ℕ) (b' : Buffer) : Type 0 where
  pub valid : IsValid b'
  pub kept : contents b' ≡ contents b
  pub room : b'.write_index + len ≤ length b'.buffer
  pub low : b'.write_index ≤ b.write_index

grown : Buffer → ℕ → Buffer
grown b len = record b { buffer = resize b.buffer (b.write_index + len) }

grown-HasRoom :
    {b : Buffer} (len : ℕ)
    → IsValid b
    → length b.buffer ≤ b.write_index + len
    → b.write_index + len < 2 ^ 63
    → HasRoom b len (grown b len)
unfolding grown
grown-HasRoom {b} len v h small = record {
  valid = omega (arith, length-resize b.buffer (b.write_index + len) h);
  kept =
      slice-resize b.buffer b.read_index (b.write_index - b.read_index) (b.write_index + len)
        (omega arith) h;
  room = omega (arith, length-resize b.buffer (b.write_index + len) h);
  low = omega arith;
}

-- the buffer with its readable bytes at the start of the storage
shifted : Buffer → Buffer
shifted b = record {
  read_index = 0;
  write_index = b.write_index - b.read_index;
  buffer = blit b.buffer 0 (contents b);
}

shifted-HasRoom :
    {b : Buffer} (len : ℕ)
    → IsValid b
    → b.write_index - b.read_index + len ≤ length b.buffer
    → HasRoom b len (shifted b)
unfolding shifted
shifted-HasRoom {b} len v h = record {
  valid = omega (arith, length-blit b.buffer 0 (contents b));
  kept =
      slice-blit-zero b.buffer (contents b) (b.write_index - b.read_index - 0)
        (omega (arith, length-contents v)) (omega arith);
  room = omega (arith, length-blit b.buffer 0 (contents b));
  low = omega arith;
}

-- `MakeSpace` keeps the readable bytes and makes the room that is asked for.
pub make_space_lem :
    (std : CopyBackward) {b : Buffer} (len : ℕ)
    → IsValid b
    → Copied std b
    → writable_bytes b < len
    → b.write_index + len < 2 ^ 63
    → (b' : Buffer) × (make_space std b len ≡ some b') × HasRoom b len b'
unfolding make_space grown shifted
make_space_lem std {b} len v c h small =
    elim (Bool-cases (ltb (add_size (writable_bytes b) b.read_index) len)) [
      | inl e ↦ (grown b len, ground (arith, e), grown-HasRoom len v (omega arith) small)
      | inr e ↦ (
        shifted b,
        ground (arith, e, c, readable_bytes_lem v),
        shifted-HasRoom len v (ground arith),
      )
    ]

-- A new buffer is valid and has nothing to read.
pub fresh-IsValid : IsValid fresh × (contents fresh ≡ [])
unfolding fresh
fresh-IsValid = (omega arith, refl)
