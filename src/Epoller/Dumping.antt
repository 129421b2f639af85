-- ===== src/Epoller/Dumping.antt =====
-- `DumpChannels`: the debug check of the whole table.
use base_linux.Base.{ℕ, zero, suc, ◌≡◌, refl, inl, inr, some, Option-cases, arith}
use base_linux.Epoller.{EpollLib, Epoller, dump_count, dump_channels}
use base_linux.Epoller.Counting.{count_to}
use base_linux.Epoller.Table.{IsValid}

dump_count_lem :
    {lib : EpollLib} (e : Epoller lib) (n : ℕ)
    → IsValid e
    → dump_count e n ≡ some (count_to e.channels n)
unfolding dump_count count_to
dump_count_lem e zero v = refl
dump_count_lem e (suc n) v = elim (Option-cases (e.channels n)) [
  | inl h ↦ ground (arith, h, dump_count_lem e n v)
  | inr h ↦ let l = v.listed n h.0 h.1 in ground (arith, h.1, l.live, l.own, dump_count_lem e n v)
]

-- `DumpChannels` on a poller that keeps the invariant trips no assert: it finds as many channels as
-- `channel_nums_` says, each under its own descriptor.
pub dump_channels_lem :
    {lib : EpollLib} (e : Epoller lib) → IsValid e → dump_channels e ≡ some e.channel_nums
unfolding dump_channels
dump_channels_lem e v = ground (arith, v.max_small, v.count, dump_count_lem e (suc e.cur_max_fd) v)
