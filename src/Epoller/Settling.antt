-- ===== src/Epoller/Settling.antt =====
-- A channel that has been put into the table, or changed there: the invariant holds again.
use base_linux.Base.{
  ℕ, suc, ◌<◌, ◌≡◌, refl, sym, inl, inr, ◌⊎◌, true, false, Option, none, some, arith, ◌==◌,
  if◌then◌else◌, Bool-cases,
}
use base_linux.Channel.{EventMask, Channel, k_new}
use base_linux.Epoller.{EpollLib, EpollEvent, Epoller, Operator, is_proper, total_size}
use base_linux.Epoller.Counting.{count_to}
use base_linux.Epoller.Table.{Listed, IsValid, settled, watched}

module _ {lib : EpollLib} where
  -- The channel `c` at `p` is in the table with the events `m`, and epoll watches it for them; the
  -- rest is as it was.
  pub record Settles (e : Epoller lib) (p : ℕ) (c : Channel) (m : EventMask) (e' : Epoller lib)
      : Type 0 where
    pub objects :
        (r : ℕ)
        → e'.objects r
          ≡ (if r == p then some (record c { events = m; status = settled m }) else e.objects r)
    pub channels : (j : ℕ) → e'.channels j ≡ (if j == c.fd then some p else e.channels j)
    pub interest :
        (j : ℕ)
        → lib.interest e'.kernel j ≡ (if j == c.fd then watched m p else lib.interest e.kernel j)

  -- Every request that fits what epoll has registered for the descriptor succeeds.
  abbrev pub Accepts : Epoller lib → ℕ → Type 0
  Accepts e fd =
      (op : Operator) (event : EpollEvent)
      → is_proper op (lib.interest e.kernel fd) ≡ true
      → (k : lib.State) × (lib.epoll_ctl e.kernel op fd event ≡ some k)

-- One address holds one channel.
pub one_channel :
    (objects : ℕ → Option Channel) (r s : ℕ) {a b : Channel}
    → objects r ≡ some a
    → objects s ≡ some b
    → r ≡ s
    → a ≡ b
one_channel objects r s x y same = cc

module _ {lib : EpollLib} (e : Epoller lib) (p : ℕ) (c : Channel) (v : IsValid e)
    (live : e.objects p ≡ some c) where
  -- no other entry of the table is this channel
  abbrev pub Elsewhere : Type 0
  Elsewhere = (i r : ℕ) → e.channels i ≡ some r → (i == c.fd) ≡ false → (r == p) ≡ false

  pub Listed-here : e.channels c.fd ≡ some p → (l : Listed e c.fd p) × (l.channel ≡ c)
  Listed-here h = let l = v.listed c.fd p h in (l, one_channel e.objects p p l.live live refl)

  pub Listed-Elsewhere : Elsewhere
  Listed-Elsewhere i r h other = elim (Bool-cases (r == p)) [
    | inl same ↦
        let same' : r ≡ p = ground (arith, same) in
        let l = v.listed i r h in
        let one : l.channel ≡ c = one_channel e.objects r p l.live live same' in
        ground (arith, l.own, one, other)
    | inr apart ↦ apart
  ]

  Settles-Listed :
      (m : EventMask) (e' : Epoller lib)
      → Settles e p c m e'
      → Elsewhere
      → c.fd < total_size
      → (i r : ℕ) → e'.channels i ≡ some r
      → Listed e' i r
  Settles-Listed m e' s apart small i r h = elim (Bool-cases (i == c.fd)) [
    | inl here ↦
        let one : r ≡ p = ground (arith, here, h, s.channels i) in
        record {
          channel = record c { events = m; status = settled m };
          live = ground (arith, one, s.objects r);
          own = ground (arith, here);
          small = ground (arith, here, small);
          status = refl;
          interest = ground (arith, here, one, s.interest i);
        }
    | inr there ↦
        let old : e.channels i ≡ some r = ground (arith, there, h, s.channels i) in
        let l = v.listed i r old in
        record {
          channel = l.channel;
          live = ground (arith, apart i r old there, s.objects r, l.live);
          own = l.own;
          small = l.small;
          status = l.status;
          interest = ground (arith, there, s.interest i, l.interest);
        }
  ]

  Settles-known :
      (m : EventMask) (e' : Epoller lib)
      → Settles e p c m e'
      → ((r : ℕ) (d : Channel)
          → e.channels d.fd ≡ some r
          → e.objects r ≡ some d
          → (r == p) ≡ false
          → (d.fd == c.fd) ≡ false)
      → (r : ℕ) (d : Channel) → e'.objects r ≡ some d
      → (d.status ≡ k_new) ⊎ (e'.channels d.fd ≡ some r)
  Settles-known m e' s apart r d h = elim (Bool-cases (r == p)) [
    | inl here ↦
        let new : d.fd ≡ c.fd = ground (arith, here, h, s.objects r) in
        inr (ground (arith, here, new, s.channels d.fd))
    | inr there ↦
        let old : e.objects r ≡ some d = ground (arith, there, h, s.objects r) in
        elim (v.known r d old) [
          | inl n ↦ inl n
          | inr l ↦ inr (ground (arith, l, apart r d l old there, s.channels d.fd))
        ]
  ]

  pub Settles-IsValid :
      (m : EventMask) (e' : Epoller lib)
      → Settles e p c m e'
      → Elsewhere
      → ((r : ℕ) → e.channels c.fd ≡ some r → r ≡ p)
      → c.fd < total_size
      → ((i : ℕ) → e'.cur_max_fd < i → e'.channels i ≡ none)
      → e'.cur_max_fd < total_size
      → e'.channel_nums ≡ count_to e'.channels (suc e'.cur_max_fd)
      → IsValid e'
  Settles-IsValid m e' s apart alone small above max_small count = record {
    listed = Settles-Listed m e' s apart small;
    unwatched = λ i h. ground (arith, h, s.channels i, s.interest i, v.unwatched i);
    known = Settles-known m e' s (λ r d l live' other. elim (Bool-cases (d.fd == c.fd)) [
      | inl same ↦
          let same' : d.fd ≡ c.fd = ground (arith, same) in
          let here : e.channels c.fd ≡ some r = rw (sym same') l in
          ground (arith, alone r here, other)
      | inr differs ↦ differs
    ]);
    above = above;
    max_small = max_small;
    count = count;
  }
