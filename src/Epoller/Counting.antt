-- ===== src/Epoller/Counting.antt =====
-- How many entries of the table are channels, and where the last one stands.
use base_linux.Base.{
  ℕ, zero, suc, ◌≤◌, ◌<◌, ◌≡◌, refl, ap, inl, inr, Option, none, some, arith, update, leb, ◌==◌,
  if◌then◌else◌, Bool-cases,
}
use base_linux.Epoller.{is_null, last_below}

-- the channels at the first indices
unfoldable pub count_to : (ℕ → Option ℕ) → ℕ → ℕ
count_to f zero = 0
count_to f (suc n) = let rest = count_to f n in if is_null (f n) then rest else suc rest

pub count_to-bound : (f : ℕ → Option ℕ) (n : ℕ) → count_to f n ≤ n
unfolding count_to
count_to-bound f zero = ground arith
count_to-bound f (suc n) = ground (arith, count_to-bound f n)

pub count_to-above :
    (f : ℕ → Option ℕ) (n m : ℕ)
    → ((i : ℕ) → n ≤ i → f i ≡ none)
    → n ≤ m
    → count_to f m ≡ count_to f n
unfolding count_to
count_to-above f n zero out h = ground arith
count_to-above f n (suc m) out h = elim (Bool-cases (leb n m)) [
  | inl below ↦ ground (arith, below, out m, count_to-above f n m out)
  | inr last ↦ let same : n ≡ suc m = ground (arith, last, h) in rw same refl
]

count_to-apart :
    (f : ℕ → Option ℕ) (fd : ℕ) (o : Option ℕ) (n : ℕ)
    → n ≤ fd
    → count_to (update f fd o) n ≡ count_to f n
unfolding count_to
count_to-apart f fd o zero h = refl
count_to-apart f fd o (suc n) h = ground (arith, h, count_to-apart f fd o n)

pub count_to-put :
    (f : ℕ → Option ℕ) (fd p n : ℕ)
    → f fd ≡ none
    → fd < n
    → count_to (update f fd (some p)) n ≡ suc (count_to f n)
unfolding count_to
count_to-put f fd p zero free h = ground (arith, h)
count_to-put f fd p (suc n) free h = elim (Bool-cases (n == fd)) [
  | inl here ↦
      let same : n ≡ fd = ground (arith, here) in
      ground (arith, here, free, ap f same, count_to-apart f fd (some p) n)
  | inr there ↦ ground (arith, there, h, count_to-put f fd p n free)
]

pub count_to-clear :
    (f : ℕ → Option ℕ) (fd p n : ℕ)
    → f fd ≡ some p
    → fd < n
    → suc (count_to (update f fd none) n) ≡ count_to f n
unfolding count_to
count_to-clear f fd p zero held h = ground (arith, h)
count_to-clear f fd p (suc n) held h = elim (Bool-cases (n == fd)) [
  | inl here ↦
      let same : n ≡ fd = ground (arith, here) in
      ground (arith, here, held, ap f same, count_to-apart f fd none n)
  | inr there ↦ ground (arith, there, h, count_to-clear f fd p n held)
]

pub last_below-bound : (f : ℕ → Option ℕ) (i : ℕ) → last_below f i ≤ i
unfolding last_below
last_below-bound f zero = ground arith
last_below-bound f (suc i) = ground (arith, last_below-bound f i)

-- Nothing stands between the last channel and the index the search starts from.
pub last_below-gap : (f : ℕ → Option ℕ) (i j : ℕ) → last_below f i < j → j ≤ i → f j ≡ none
unfolding last_below
last_below-gap f zero j h k = ground (arith, h, k)
last_below-gap f (suc i) j h k = elim (Bool-cases (j == suc i)) [
  | inl here ↦ let same : j ≡ suc i = ground (arith, here) in ground (arith, h, ap f same)
  | inr there ↦ ground (arith, h, k, there, last_below-gap f i j)
]
