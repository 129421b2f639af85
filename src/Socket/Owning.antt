-- ===== src/Socket/Owning.antt =====
-- Which socket of src/socket.h closes a descriptor, when it is moved from object to object.
use mathlib.Core.List.{Perm, perm_middle}
use mathlib.Core.List.Perm
use base_linux.Base.{
  ℕ, zero, suc, ◌≡◌, ap, none, some, List, [], ◌∷◌, ◌++◌, get_elem?, set, Bool-cases, Option-cases,
  inl, inr,
}
use base_linux.Base.Int.{ℤ, negsuc}
use base_linux.Socket.{Socket, move, close, is_positive}

-- The destructors of the sockets of a list
unfoldable pub close_all : List Socket → List ℤ
close_all [] = []
close_all (s ∷ rest) = close s ++ close_all rest

-- A new socket is made from the one at `i`.
abbrev pub move_at : ℕ → List Socket → List Socket
move_at i sockets = elim (get_elem? sockets i) [
  | none ↦ sockets
  | some s ↦ let (new, old) = move s in new ∷ set sockets i old
]

unfoldable pub move_all : List ℕ → List Socket → List Socket
move_all [] sockets = sockets
move_all (i ∷ is) sockets = move_all is (move_at i sockets)

perm_swap : (s : Socket) (bs cs : List ℤ) → Perm (close s ++ (bs ++ cs)) (bs ++ (close s ++ cs))
unfolding close
perm_swap s bs cs = elim (Bool-cases (is_positive s.fd)) [
  | inl e ↦ rw e (Perm.symm (perm_middle bs cs))
  | inr e ↦ rw e (Perm.refl (bs ++ cs))
]

moved_from : Socket
moved_from = record { fd = negsuc 0; settings = [] }

close-set :
    (sockets : List Socket) (i : ℕ) (s : Socket)
    → get_elem? sockets i ≡ some s
    → Perm (close s ++ close_all (set sockets i moved_from)) (close_all sockets)
unfolding close close_all moved_from
close-set [] i s e = absurd (cc)
close-set (t ∷ rest) zero s e =
    let same : t ≡ s = ap (λ o. elim o [ none ↦ t | some u ↦ u ]) e in
    rw same (Perm.refl (close s ++ close_all rest))
close-set (t ∷ rest) (suc i) s e =
    Perm.trans (perm_swap s (close t) (close_all (set rest i moved_from)))
      (Perm.append_left (close t) (close-set rest i s e))

close-move_at :
    (i : ℕ) (sockets : List Socket) → Perm (close_all (move_at i sockets)) (close_all sockets)
unfolding close_all move moved_from
close-move_at i sockets = elim (Option-cases (get_elem? sockets i)) [
  | inl e ↦ rw (e, close_all) (Perm.refl (close_all sockets))
  | inr (s, e) ↦ rw (e, close_all) (close-set sockets i s e)
]

-- However sockets are moved from object to object, any of them and any number of times, the
-- destructors of all of them then close the same descriptors as those of the sockets before, each
-- as many times.
pub close-move_all :
    (is : List ℕ) (sockets : List Socket)
    → Perm (close_all (move_all is sockets)) (close_all sockets)
unfolding move_all
close-move_all [] sockets = Perm.refl (close_all sockets)
close-move_all (i ∷ is) sockets =
    Perm.trans (close-move_all is (move_at i sockets)) (close-move_at i sockets)
