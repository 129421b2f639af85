-- ===== src/OrderedSet/Laws.antt =====
-- What a set holds after each operation, and how many keys.
use base_linux.Base.{
  suc, ◌≡◌, refl, true, false, not, ◌&&◌, ◌||◌, List, [], ◌∷◌, ◌++◌, arith, length,
}
use base_linux.OrderedSet.{Pair, pair_eq, pair_lt, contains, insert, erase, before, from_bound}
use base_linux.OrderedSet.Order.{Above, IsSorted}

pub contains-insert :
    (y x : Pair) (xs : List Pair) → contains y (insert x xs) ≡ (pair_eq y x || contains y xs)
unfolding contains insert
contains-insert y x [] = refl
contains-insert y x (z ∷ zs) = ground (arith, contains-insert y x zs)

pub contains-erase :
    (y x : Pair) (xs : List Pair) → contains y (erase x xs) ≡ (contains y xs && not (pair_eq y x))
unfolding contains erase
contains-erase y x [] = refl
contains-erase y x (z ∷ zs) = ground (arith, contains-erase y x zs)

pub contains-Above :
    (x y : Pair) (xs : List Pair) → Above x xs → contains y xs ≡ true → pair_lt x y ≡ true
unfolding contains
contains-Above x y [] a h = cc
contains-Above x y (z ∷ zs) a h = ground (arith, contains-Above x y zs a.1)

pub length-insert :
    (x : Pair) (xs : List Pair)
    → IsSorted xs
    → contains x xs ≡ false
    → length (insert x xs) ≡ suc (length xs)
unfolding contains insert
length-insert x [] s h = refl
length-insert x (y ∷ ys) s h = ground (arith, length-insert x ys s.1)

erase-missing : (x : Pair) (xs : List Pair) → contains x xs ≡ false → erase x xs ≡ xs
unfolding contains erase
erase-missing x [] h = refl
erase-missing x (y ∷ ys) h = ground (arith, erase-missing x ys)

pub length-erase :
    (x : Pair) (xs : List Pair)
    → IsSorted xs
    → contains x xs ≡ true
    → suc (length (erase x xs)) ≡ length xs
unfolding contains erase
length-erase x [] s h = cc
length-erase x (y ∷ ys) s h =
    ground (arith, length-erase x ys s.1, contains-Above y x ys s.0, erase-missing x ys)

pub before-from : (x : Pair) (xs : List Pair) → before x xs ++ from_bound x xs ≡ xs
unfolding before from_bound
before-from x [] = refl
before-from x (y ∷ ys) = ground (arith, before-from x ys)

-- Below the bound are exactly the keys that are less.
pub contains-before :
    (y x : Pair) (xs : List Pair)
    → IsSorted xs
    → contains y (before x xs) ≡ (contains y xs && pair_lt y x)
unfolding contains before
contains-before y x [] s = refl
contains-before y x (z ∷ zs) s =
    ground (arith, contains-before y x zs s.1, contains-Above z y zs s.0)

pub contains-from_bound :
    (y x : Pair) (xs : List Pair)
    → IsSorted xs
    → contains y (from_bound x xs) ≡ (contains y xs && not (pair_lt y x))
unfolding contains from_bound
contains-from_bound y x [] s = refl
contains-from_bound y x (z ∷ zs) s =
    ground (arith, contains-from_bound y x zs s.1, contains-Above z y zs s.0)
