-- ===== src/Buffer/Search.antt =====
-- `FindCRLF`: the first line end among the readable bytes.
use base_linux.Base.{
  ℕ, zero, suc, ◌+◌, ◌-◌, ◌≤◌, ◌<◌, ◌≡◌, refl, sym, subst, drop_all, ◌∙◌, ◌⊎◌, inl, inr, Option,
  none, some, List, [], ◌∷◌, arith, length, get_elem?, drop, slice, drop-slice, Bool-cases, ◌==◌,
  ◌&&◌, leb, if◌then◌else◌, length-drop, ==_iff,
}
use mathlib.Core.Path.{ap₂}
use base_linux.Buffer.{Buffer, search_crlf, find_crlf, find_crlf_from}
use base_linux.Buffer.Space.{IsValid, contents, length-contents, readable_bytes_lem}

-- "\r\n" stands at position `k`.
abbrev pub CrlfAt : List ℕ → ℕ → Type 0
CrlfAt xs k = (get_elem? xs k ≡ some 13) × (get_elem? xs (suc k) ≡ some 10)

-- Either there is none and the answer is `none`, or the answer is the address of the first one.
abbrev pub Finds : List ℕ → ℕ → Option ℕ → Type 0
Finds xs base r =
    ((r ≡ none) × ((k : ℕ) → ¬ CrlfAt xs k))
    ⊎ ((k : ℕ) × (r ≡ some (base + k)) × CrlfAt xs k × ((j : ℕ) → j < k → ¬ CrlfAt xs j))

-- What the search has found at `n`.
record Stops (xs : List ℕ) (n : ℕ) : Type 0 where
  bound : n ≤ length xs
  hit : n < length xs → CrlfAt xs n
  first : (j : ℕ) → j < n → ¬ CrlfAt xs j

Stops-cons :
    (x : ℕ) (xs : List ℕ) (n : ℕ) → ¬ CrlfAt (x ∷ xs) 0 → Stops xs n → Stops (x ∷ xs) (suc n)
Stops-cons x xs n miss s = record {
  bound = omega (arith, s.bound);
  hit = λ h. s.hit (omega arith);
  first = earlier;
}
  where
    earlier : (j : ℕ) → j < suc n → ¬ CrlfAt (x ∷ xs) j
    earlier zero h = miss
    earlier (suc j) h = s.first j (omega arith)

search_crlf-Stops : (xs : List ℕ) → Stops xs (search_crlf xs)
unfolding search_crlf
search_crlf-Stops [] = record {
  bound = omega arith;
  hit = λ h. absurd (omega arith);
  first = λ j h. absurd (omega arith);
}
search_crlf-Stops (x ∷ []) =
    Stops-cons x [] 0 (λ c. cc (c.1))
      (record {
        bound = omega arith;
        hit = λ h. absurd (omega arith);
        first = λ j h. absurd (omega arith);
      })
search_crlf-Stops (x ∷ y ∷ ys) = elim (Bool-cases (x == 13 && y == 10)) [
  | inl e ↦ rw e (record {
    bound = omega arith;
    hit = λ h. (ground (arith, e), ground (arith, e));
    first = λ j h. absurd (omega arith);
  })
  | inr e ↦ rw e (
      Stops-cons x (y ∷ ys) (search_crlf (y ∷ ys)) (λ c. ground (arith, e, c.0, c.1))
        (search_crlf-Stops (y ∷ ys)))
]

-- Nothing stands at the last byte or behind it.
CrlfAt-lt : (xs : List ℕ) (k : ℕ) → CrlfAt xs k → suc k < length xs
CrlfAt-lt [] k c = cc (c.0)
CrlfAt-lt (x ∷ []) zero c = cc (c.1)
CrlfAt-lt (x ∷ y ∷ ys) zero c = omega arith
CrlfAt-lt (x ∷ xs) (suc k) c = omega (arith, CrlfAt-lt xs k c)

-- The answer as the code forms it: the address of the stop, or `nullptr` at the end.
stop_address-Finds :
    (xs : List ℕ) (base end : ℕ)
    → base + length xs ≡ end
    → Finds xs base (if base + search_crlf xs == end then none else some (base + search_crlf xs))
stop_address-Finds xs base end e =
    let s = search_crlf-Stops xs in
    elim (Bool-cases (base + search_crlf xs == end)) [
      | inl t ↦
          rw t (inl (refl, λ k c. s.first k (omega (arith, CrlfAt-lt xs k c, (==_iff _ _).0 t)) c))
      | inr f ↦ rw f (inr (search_crlf xs, refl, s.hit (ground (arith, s.bound, f)), s.first))
    ]

-- `FindCRLF()` answers with the address of the first "\r\n" among the readable bytes, and with
-- `nullptr` exactly if there is none.
pub find_crlf_lem : {b : Buffer} → IsValid b → Finds (contents b) b.read_index (find_crlf b)
unfolding find_crlf
find_crlf_lem {b} v =
    subst
      (λ n.
        let crlf = b.read_index + search_crlf (slice b.buffer b.read_index n) in
        Finds (contents b) b.read_index (if crlf == b.write_index then none else some crlf))
      (sym (readable_bytes_lem v))
      (stop_address-Finds (contents b) b.read_index b.write_index
        (omega (arith, length-contents v)))

-- The bytes from `start` on are the end of the readable ones.
drop-contents :
    {b : Buffer} (start : ℕ)
    → IsValid b
    → b.read_index ≤ start
    → start ≤ b.write_index
    → drop (start - b.read_index) (contents b) ≡ slice b.buffer start (b.write_index - start)
drop-contents {b} start v lo hi =
    drop-slice b.buffer b.read_index (b.write_index - b.read_index) (start - b.read_index)
      (omega arith)
    ∙ ap₂ (slice b.buffer) (omega arith) (omega arith)

-- `FindCRLF(start)`, for a `start` at or behind the first readable byte, looks in the same way
-- among the readable bytes from `start` on; for a `start` at the end of the bytes or behind it
-- there are none.
pub find_crlf_from_lem :
    {b : Buffer} (start : ℕ)
    → IsValid b
    → b.read_index ≤ start
    → Finds (drop (start - b.read_index) (contents b)) start (find_crlf_from b start)
unfolding find_crlf_from
find_crlf_from_lem {b} start v h = elim (Bool-cases (leb b.write_index start)) [
  | inl e ↦
      rw (e, drop_all (contents b) (start - b.read_index) (ground (arith, e, length-contents v)))
        (inl (refl, λ k c. absurd (omega (arith, CrlfAt-lt [] k c))))
  | inr e ↦
      let hi : start ≤ b.write_index = ground (arith, e) in
      let d = drop-contents start v h hi in
      let n : start + length (drop (start - b.read_index) (contents b)) ≡ b.write_index =
        omega (arith, length-drop (start - b.read_index) (contents b), length-contents v) in
      rw (e, d) (stop_address-Finds _ start b.write_index (rw d at n))
]
