-- ===== src/Epoller/Starting.antt =====
-- The poller at its start and at its end.
use base_linux.Base.{
  ℕ, suc, ◌≡◌, ◌≢◌, refl, sym, ap, inl, Option, none, some, true, false, arith, zero,
}
use base_linux.Channel.{Channel, k_new}
use base_linux.Epoller.{EpollLib, Epoller, new_poller, destroy}
use base_linux.Epoller.Counting.{count_to}
use base_linux.Epoller.Table.{IsValid}

none-ne-some : {A : Type 0} (a : A) → none ≢ some a
none-ne-some a e =
    let no : true ≡ false = ap (λ o. elim o [ none ↦ true | some x ↦ false ]) e in absurd (cc)

count_to_empty :
    (channels : ℕ → Option ℕ) (n : ℕ) → ((i : ℕ) → channels i ≡ none) → count_to channels n ≡ 0
unfolding count_to
count_to_empty channels zero h = refl
count_to_empty channels (suc n) h = let rest = count_to_empty channels n h in rw (h n) rest

module _ {lib : EpollLib} where
  -- A new poller keeps the invariant, where the new epoll instance watches nothing and the channels in memory are new.
  pub new_poller-IsValid :
      (objects : ℕ → Option Channel) (kernel : lib.State)
      → ((i : ℕ) → lib.interest kernel i ≡ none)
      → ((p : ℕ) (c : Channel) → objects p ≡ some c → c.status ≡ k_new)
      → IsValid (new_poller {lib = lib} objects kernel)
  unfolding new_poller
  new_poller-IsValid objects kernel idle new = record {
    listed = λ i p h. absurd (none-ne-some p h);
    unwatched = λ i h. idle i;
    known = λ p c live. inl (new p c live);
    above = λ i h. refl;
    max_small = omega arith;
    count = sym (count_to_empty (λ _. none) (suc 0) (λ i. refl));
  }

  -- The destructor of a poller that keeps the invariant and has no channel left trips no assert.
  pub destroy_lem :
      (e : Epoller lib) → IsValid e → ((i : ℕ) → e.channels i ≡ none) → destroy e ≡ some tt
  unfolding destroy
  destroy_lem e v empty =
      let left = count_to_empty e.channels (suc e.cur_max_fd) empty in ground (arith, v.count, left)
