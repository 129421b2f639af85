-- ===== src/TcpServer/Table.antt =====
-- The list of connections as a table by descriptor.
use base_linux.Base.{
  ℕ, zero, suc, ◌+◌, ◌*◌, ◌^◌, ◌<◌, ◌≤◌, ◌≡◌, ◌≢◌, refl, ap, ◌∙◌, inl, inr, Option, none, some,
  List, [], ◌∷◌, ◌++◌, length, replicate, get_elem?, set, leb, ◌==◌, if◌then◌else◌, arith,
  Bool-cases, length-append, length-replicate,
}
use base_linux.TcpServer.{Conn, grow, count_from}

unfoldable pub item_at : List (Option Conn) → ℕ → Option Conn
item_at [] i = none
item_at (item ∷ items) zero = item
item_at (item ∷ items) (suc i) = item_at items i

abbrev pub one : Option Conn → ℕ
one none = 0
one (some conn) = 1

unfoldable pub count_items : List (Option Conn) → ℕ
count_items [] = 0
count_items (item ∷ items) = one item + count_items items

pub get_elem?_item :
    (items : List (Option Conn)) (i : ℕ)
    → i < length items
    → get_elem? items i ≡ some (item_at items i)
unfolding item_at
get_elem?_item [] i h = elim h [ ]
get_elem?_item (item ∷ items) zero h = refl
get_elem?_item (item ∷ items) (suc i) h = get_elem?_item items i (omega arith)

pub item_at-short : (items : List (Option Conn)) (i : ℕ) → item_at items i ≢ none → i < length items
unfolding item_at
item_at-short [] i h = elim (h refl) [ ]
item_at-short (item ∷ items) zero h = omega arith
item_at-short (item ∷ items) (suc i) h = omega (arith, item_at-short items i h)

pub item_at-set :
    (items : List (Option Conn)) (i j : ℕ) (new : Option Conn)
    → i < length items
    → item_at (set items i new) j ≡ (if j == i then new else item_at items j)
unfolding item_at
item_at-set [] i j new h = elim h [ ]
item_at-set (item ∷ items) zero zero new h = refl
item_at-set (item ∷ items) zero (suc j) new h = ground arith
item_at-set (item ∷ items) (suc i) zero new h = ground arith
item_at-set (item ∷ items) (suc i) (suc j) new h =
    item_at-set items i j new (omega arith) ∙ ground arith

pub count_items-set :
    (items : List (Option Conn)) (i : ℕ) (new : Option Conn)
    → i < length items
    → count_items (set items i new) + one (item_at items i) ≡ count_items items + one new
unfolding item_at count_items
count_items-set [] i new h = elim h [ ]
count_items-set (item ∷ items) zero new h = omega arith
count_items-set (item ∷ items) (suc i) new h =
    omega (arith, count_items-set items i new (omega arith))

pub count_items_short : (items : List (Option Conn)) → count_items items ≤ length items
unfolding count_items
count_items_short [] = omega arith
count_items_short (none ∷ items) = omega (arith, count_items_short items)
count_items_short (some conn ∷ items) = omega (arith, count_items_short items)

item_at-replicate : (n i : ℕ) → item_at (replicate n none) i ≡ none
unfolding item_at
item_at-replicate zero i = refl
item_at-replicate (suc n) zero = refl
item_at-replicate (suc n) (suc i) = item_at-replicate n i

count_items-replicate : (n : ℕ) → count_items (replicate n none) ≡ 0
unfolding count_items
count_items-replicate zero = refl
count_items-replicate (suc n) = omega (arith, count_items-replicate n)

item_at-append :
    (items : List (Option Conn)) (n i : ℕ) → item_at (items ++ replicate n none) i ≡ item_at items i
unfolding item_at
item_at-append [] n i = item_at-replicate n i
item_at-append (item ∷ items) n zero = refl
item_at-append (item ∷ items) n (suc i) = item_at-append items n i

count_items-append :
    (items : List (Option Conn)) (n : ℕ)
    → count_items (items ++ replicate n none) ≡ count_items items
unfolding count_items
count_items-append [] n = count_items-replicate n
count_items-append (item ∷ items) n = omega (arith, count_items-append items n)

-- To make room changes neither the items nor their number.
pub grow_lem :
    (items : List (Option Conn)) (fd : ℕ)
    → ((i : ℕ) → item_at (grow items fd) i ≡ item_at items i)
      × (count_items (grow items fd) ≡ count_items items)
      × (length items ≤ length (grow items fd))
      × (fd < 2 * length items → fd < length (grow items fd))
      × (fd < 2 ^ 31 → length items ≤ 2 ^ 32 → length (grow items fd) ≤ 2 ^ 32)
grow_lem items fd = elim (Bool-cases (leb (length items) fd)) [
  | inr enough ↦
      let same : grow items fd ≡ items = rw enough refl in
      (
        λ i. ap (λ xs. item_at xs i) same,
        ap count_items same,
        omega (arith, ap length same),
        λ h. ground (arith, enough, ap length same),
        λ h k. omega (arith, k, ap length same),
      )
  | inl more ↦
      let same : grow items fd ≡ items ++ replicate (length items) none = rw more refl in
      let null : Option Conn = none in
      let l : length (grow items fd) ≡ length items + length items =
        ap length same
        ∙ length-append items (replicate (length items) none)
        ∙ omega (arith, length-replicate (length items) null) in
      let less : length items ≤ fd = ground (arith, more) in
      (
        λ i. ap (λ xs. item_at xs i) same ∙ item_at-append items (length items) i,
        ap count_items same ∙ count_items-append items (length items),
        omega (arith, l),
        λ h. omega (arith, l, h),
        λ h k. omega (arith, l, h, less),
      )
]

-- What `DumpConnections` counts, where every item stands at its descriptor.
pub count_from_lem :
    (items : List (Option Conn)) (first : ℕ)
    → ((i : ℕ) (conn : Conn) → item_at items i ≡ some conn → conn.fd ≡ first + i)
    → count_from items first ≡ some (count_items items)
unfolding count_from count_items item_at
count_from_lem [] first h = refl
count_from_lem (none ∷ items) first h =
    count_from_lem items (suc first) (λ i conn e. h (suc i) conn e ∙ omega arith)
    ∙ ap some (omega arith)
count_from_lem (some conn ∷ items) first h =
    let rest = count_from_lem items (suc first) (λ i conn' e. h (suc i) conn' e ∙ omega arith) in
    let at : conn.fd ≡ first = h 0 conn refl ∙ omega arith in ground (arith, at, rest)
