-- ===== src/OrderedSet.antt =====
-- `std::set<std::pair<A, B>>` for keys that are numbers, as the timer queue uses it: a list in
-- ascending order of the pairs, without repetition. Pointers and time stamps count as numbers.
pub mod Order
pub mod Laws
use base_linux.Base.{ℕ, ◌≡◌, Bool, true, false, ◌&&◌, ◌||◌, List, [], ◌∷◌, ltb, ◌==◌, if◌then◌else◌}

abbrev pub Pair : Type 0
Pair = ℕ × ℕ

abbrev pub pair_eq : Pair → Pair → Bool
pair_eq a b = a.0 == b.0 && a.1 == b.1

-- `operator<` of pairs
abbrev pub pair_lt : Pair → Pair → Bool
pair_lt a b = ltb a.0 b.0 || (a.0 == b.0 && ltb a.1 b.1)

-- `find(x) != end()`
unfoldable pub contains : Pair → List Pair → Bool
contains x [] = false
contains x (y ∷ ys) = pair_eq x y || contains x ys

-- `insert(x)`: nothing changes if the key is there.
unfoldable pub insert : Pair → List Pair → List Pair
insert x [] = x ∷ []
insert x (y ∷ ys) =
    if pair_lt x y then x ∷ y ∷ ys else if pair_lt y x then y ∷ insert x ys else y ∷ ys

-- `erase(x)`
unfoldable pub erase : Pair → List Pair → List Pair
erase x [] = []
erase x (y ∷ ys) = if pair_eq x y then erase x ys else y ∷ erase x ys

-- `[begin(), lower_bound(x))` and `[lower_bound(x), end())`
unfoldable pub before : Pair → List Pair → List Pair
before x [] = []
before x (y ∷ ys) = if pair_lt y x then y ∷ before x ys else []

unfoldable pub from_bound : Pair → List Pair → List Pair
from_bound x [] = []
from_bound x (y ∷ ys) = if pair_lt y x then from_bound x ys else y ∷ ys
