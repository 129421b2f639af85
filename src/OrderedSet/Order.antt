-- ===== src/OrderedSet/Order.antt =====
-- The order of a set: every key lies below those behind it.
use base_linux.Base.{◌≡◌, true, List, [], ◌∷◌, arith, All}
use base_linux.OrderedSet.{Pair, pair_lt, insert, erase, before, from_bound}

abbrev pub Above : Pair → List Pair → Type 0
Above x = All (λ y. pair_lt x y ≡ true)

abbrev pub IsSorted : List Pair → Type 0
IsSorted [] = Unit {0}
IsSorted (x ∷ xs) = Above x xs × IsSorted xs

lt_trans : (a b c : Pair) → pair_lt a b ≡ true → pair_lt b c ≡ true → pair_lt a c ≡ true
lt_trans a b c h k = ground arith

Above-mono : (a b : Pair) (xs : List Pair) → pair_lt a b ≡ true → Above b xs → Above a xs
Above-mono a b [] h k = tt
Above-mono a b (x ∷ xs) h k = (lt_trans a b x h k.0, Above-mono a b xs h k.1)

Above-insert :
    (a x : Pair) (xs : List Pair) → pair_lt a x ≡ true → Above a xs → Above a (insert x xs)
unfolding insert
Above-insert a x [] h k = (h, tt)
Above-insert a x (y ∷ ys) h k = ground (arith, Above-insert a x ys h k.1)

pub insert-IsSorted : (x : Pair) (xs : List Pair) → IsSorted xs → IsSorted (insert x xs)
unfolding insert
insert-IsSorted x [] s = (tt, tt)
insert-IsSorted x (y ∷ ys) s =
    ground (arith, insert-IsSorted x ys s.1, Above-insert y x ys, Above-mono x y ys)

Above-erase : (a x : Pair) (xs : List Pair) → Above a xs → Above a (erase x xs)
unfolding erase
Above-erase a x [] k = tt
Above-erase a x (y ∷ ys) k = ground (arith, Above-erase a x ys k.1)

pub erase-IsSorted : (x : Pair) (xs : List Pair) → IsSorted xs → IsSorted (erase x xs)
unfolding erase
erase-IsSorted x [] s = tt
erase-IsSorted x (y ∷ ys) s = ground (arith, erase-IsSorted x ys s.1, Above-erase y x ys s.0)

Above-before : (a x : Pair) (xs : List Pair) → Above a xs → Above a (before x xs)
unfolding before
Above-before a x [] k = tt
Above-before a x (y ∷ ys) k = ground (arith, Above-before a x ys k.1)

pub before-IsSorted : (x : Pair) (xs : List Pair) → IsSorted xs → IsSorted (before x xs)
unfolding before
before-IsSorted x [] s = tt
before-IsSorted x (y ∷ ys) s = ground (arith, before-IsSorted x ys s.1, Above-before y x ys s.0)

pub from_bound-IsSorted : (x : Pair) (xs : List Pair) → IsSorted xs → IsSorted (from_bound x xs)
unfolding from_bound
from_bound-IsSorted x [] s = tt
from_bound-IsSorted x (y ∷ ys) s = ground (arith, from_bound-IsSorted x ys s.1)
