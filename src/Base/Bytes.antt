-- ===== src/Base/Bytes.antt =====
-- Memory as a list of bytes, and the `size_t` arithmetic that addresses it.
use Prim.Native.Nat.add
use Prim.Native.Nat.{ℕ, zero, suc, ◌+◌, ◌-◌, ◌%◌, ◌^◌, ◌≤◌}
use mathlib.Core.Path.{◌≡◌, refl, sym, ap, ◌∙◌}
use mathlib.Core.List.{List, [], ◌∷◌, ◌++◌}
use native.Mathlib.Omega.{arith}
use base_linux.Base.Lists.{length, take, drop, take-append, take-nil, drop-drop}

-- `size_t` addition and subtraction
abbrev pub add_size : ℕ → ℕ → ℕ
add_size a b = (a + b) % 2 ^ 64

abbrev pub sub_size : ℕ → ℕ → ℕ
sub_size a b = (a + 2 ^ 64 - b) % 2 ^ 64

module _ {ℓ} {A : Type ℓ} where
  -- `n` cells from index `i`
  abbrev pub slice : List A → ℕ → ℕ → List A
  slice mem i n = take n (drop i mem)

  -- Writes `xs` from index `i`; what would fall outside is lost.
  unfoldable pub blit : List A → ℕ → List A → List A
  blit [] i xs = []
  blit (m ∷ mem) zero [] = m ∷ mem
  blit (m ∷ mem) zero (x ∷ xs) = x ∷ blit mem zero xs
  blit (m ∷ mem) (suc i) xs = m ∷ blit mem i xs

  pub length-blit : (mem : List A) (i : ℕ) (xs : List A) → length (blit mem i xs) ≡ length mem
  unfolding blit
  length-blit [] i xs = refl
  length-blit (m ∷ mem) zero [] = refl
  length-blit (m ∷ mem) zero (x ∷ xs) = ap suc (length-blit mem zero xs)
  length-blit (m ∷ mem) (suc i) xs = ap suc (length-blit mem i xs)

  -- A write at the start that fits
  pub blit-zero :
      (mem xs : List A) → length xs ≤ length mem → blit mem zero xs ≡ xs ++ drop (length xs) mem
  unfolding blit
  blit-zero [] [] h = refl
  blit-zero [] (x ∷ xs) h = absurd (omega arith)
  blit-zero (m ∷ mem) [] h = refl
  blit-zero (m ∷ mem) (x ∷ xs) h = ap (◌∷◌ x) (blit-zero mem xs (omega arith))

  -- A write that fits replaces its cells and no other.
  pub blit_lem :
      (mem : List A) (i : ℕ) (xs : List A)
      → i + length xs ≤ length mem
      → blit mem i xs ≡ take i mem ++ (xs ++ drop (length xs) (drop i mem))
  unfolding blit
  blit_lem mem zero xs h = blit-zero mem xs (omega arith)
  blit_lem [] (suc i) xs h = absurd (omega arith)
  blit_lem (m ∷ mem) (suc i) xs h = ap (◌∷◌ m) (blit_lem mem i xs (omega arith))

  take-blit :
      (mem : List A) (n : ℕ) (xs : List A)
      → n + length xs ≤ length mem
      → take (n + length xs) (blit mem n xs) ≡ take n mem ++ xs
  unfolding blit
  take-blit mem zero xs h =
      rw (add.zero, blit-zero mem xs (omega arith)) (take-append xs (drop (length xs) mem))
  take-blit [] (suc n) xs h = absurd (omega arith)
  take-blit (m ∷ mem) (suc n) xs h = rw add.suc (ap (◌∷◌ m) (take-blit mem n xs (omega arith)))

  slice-blit_add :
      (mem : List A) (r n : ℕ) (xs : List A)
      → r + n + length xs ≤ length mem
      → slice (blit mem (r + n) xs) r (n + length xs) ≡ slice mem r n ++ xs
  unfolding blit
  slice-blit_add mem zero n xs h = rw add.zero (take-blit mem n xs (omega arith))
  slice-blit_add [] (suc r) n xs h = absurd (omega arith)
  slice-blit_add (m ∷ mem) (suc r) n xs h = rw add.suc (slice-blit_add mem r n xs (omega arith))

  -- A write at the end of a slice extends the slice by what is written.
  pub slice-blit :
      (mem : List A) (r n w k : ℕ) (xs : List A)
      → w ≡ r + n
      → k ≡ n + length xs
      → w + length xs ≤ length mem
      → slice (blit mem w xs) r k ≡ slice mem r n ++ xs
  slice-blit mem r n w k xs e f h = rw (e, f) (slice-blit_add mem r n xs (omega arith))

  pub take-append_left :
      (mem ys : List A) (n : ℕ) → n ≤ length mem → take n (mem ++ ys) ≡ take n mem
  take-append_left mem ys zero h = refl
  take-append_left [] ys (suc n) h = absurd (omega arith)
  take-append_left (m ∷ mem) ys (suc n) h = ap (◌∷◌ m) (take-append_left mem ys n (omega arith))

  -- A slice does not see what is added behind it.
  pub slice-append :
      (mem ys : List A) (r n : ℕ) → r + n ≤ length mem → slice (mem ++ ys) r n ≡ slice mem r n
  slice-append mem ys zero n h = take-append_left mem ys n (omega arith)
  slice-append [] ys (suc r) zero h = refl
  slice-append [] ys (suc r) (suc n) h = absurd (omega arith)
  slice-append (m ∷ mem) ys (suc r) n h = slice-append mem ys r n (omega arith)

  take-blit-zero :
      (mem xs : List A) → length xs ≤ length mem → take (length xs) (blit mem 0 xs) ≡ xs
  take-blit-zero mem xs h = rw (blit-zero mem xs h) (take-append xs (drop (length xs) mem))

  -- What is written at the start is read back there.
  pub slice-blit-zero :
      (mem xs : List A) (n : ℕ) → length xs ≡ n → n ≤ length mem → slice (blit mem 0 xs) 0 n ≡ xs
  slice-blit-zero mem xs n e h = rw (← e) (take-blit-zero mem xs (omega arith))

  drop-take : (mem : List A) (n k : ℕ) → k ≤ n → drop k (take n mem) ≡ take (n - k) (drop k mem)
  drop-take mem n zero h = ap (λ m. take m mem) (omega arith)
  drop-take mem zero (suc k) h = absurd (omega arith)
  drop-take [] (suc n) (suc k) h = sym (take-nil (suc n - suc k))
  drop-take (m ∷ mem) (suc n) (suc k) h =
      drop-take mem n k (omega arith) ∙ ap (λ i. take i (drop k mem)) (omega arith)

  -- The end of a slice is a slice.
  pub drop-slice :
      (mem : List A) (r n k : ℕ) → k ≤ n → drop k (slice mem r n) ≡ slice mem (r + k) (n - k)
  drop-slice mem r n k h = drop-take (drop r mem) n k h ∙ ap (take (n - k)) (drop-drop k r mem)

  take-take : (mem : List A) (n k : ℕ) → k ≤ n → take k (take n mem) ≡ take k mem
  take-take mem n zero h = refl
  take-take mem zero (suc k) h = absurd (omega arith)
  take-take [] (suc n) (suc k) h = refl
  take-take (m ∷ mem) (suc n) (suc k) h = ap (◌∷◌ m) (take-take mem n k (omega arith))

  -- The start of a slice is a slice.
  pub take-slice : (mem : List A) (r n k : ℕ) → k ≤ n → take k (slice mem r n) ≡ slice mem r k
  take-slice mem r n k h = take-take (drop r mem) n k h
