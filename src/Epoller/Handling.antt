-- ===== src/Epoller/Handling.antt =====
-- The flag `handling_` of a channel, which `UpdateChannel` and `RemoveChannel` leave as it is.
use base_linux.Base.{
  ℕ, ◌≡◌, ◌∙◌, Bool, false, inl, inr, Option, none, some, arith, update, ◌==◌, Bool-cases,
  Option-cases,
}
use base_linux.Channel.{EventMask, Channel, k_new, k_added, k_del}
use base_linux.Epoller.{
  EpollLib, Epoller, add_channel_list_item, del_channel_list_item, update_new, update_added,
  update_del, update_channel, change_events, remove_channel,
}

module _ {lib : EpollLib} where
  unfoldable pub is_handling : Epoller lib → ℕ → Bool
  is_handling e p = elim (e.objects p) [ none ↦ false | some c ↦ c.handling ]

  -- A step that may fault, and leaves the flag of a channel at a value if it does not.
  unfoldable pub Leaves : ℕ → Bool → Option (Epoller lib) → Type 0
  Leaves p flag out = (e : Epoller lib) → out ≡ some e → is_handling e p ≡ flag

  add_channel_list_item-Leaves :
      (e : Epoller lib) (p q fd : ℕ) → Leaves p (is_handling e p) (add_channel_list_item e q fd)
  unfolding add_channel_list_item Leaves is_handling
  add_channel_list_item-Leaves e p q fd e' h = ground (arith, h)

  update_new-Leaves :
      (e : Epoller lib) (p : ℕ) (c : Channel)
      → e.objects p ≡ some c
      → Leaves p c.handling (update_new e p c)
  unfolding update_new add_channel_list_item Leaves is_handling
  update_new-Leaves e p c live e' h = ground (arith, h, live)

  update_added-Leaves :
      (e : Epoller lib) (p : ℕ) (c : Channel)
      → e.objects p ≡ some c
      → Leaves p c.handling (update_added e p c)
  unfolding update_added Leaves is_handling
  update_added-Leaves e p c live e' h = ground (arith, h, live)

  update_del-Leaves :
      (e : Epoller lib) (p : ℕ) (c : Channel)
      → e.objects p ≡ some c
      → Leaves p c.handling (update_del e p c)
  unfolding update_del Leaves is_handling
  update_del-Leaves e p c live e' h = ground (arith, h, live)

  update_channel-Leaves :
      (e : Epoller lib) (p : ℕ) (c : Channel)
      → e.objects p ≡ some c
      → Leaves p c.handling (update_channel e p)
  unfolding update_channel Leaves
  update_channel-Leaves e p c live e' h = elim (Bool-cases (c.status == k_new)) [
    | inl new ↦ update_new-Leaves e p c live e' (ground (arith, live, new, h))
    | inr old ↦ elim (Bool-cases (c.status == k_added)) [
      | inl added ↦ update_added-Leaves e p c live e' (ground (arith, live, old, added, h))
      | inr other ↦ elim (Bool-cases (c.status == k_del)) [
        | inl deleted ↦
            update_del-Leaves e p c live e' (ground (arith, live, old, other, deleted, h))
        | inr strange ↦ ground (arith, live, old, other, strange, h)
      ]
    ]
  ]

  -- A change of a channel's events leaves its flag.
  pub change_events-Leaves :
      (change : EventMask → EventMask) (e : Epoller lib) (p : ℕ)
      → Leaves p (is_handling e p) (change_events change e p)
  unfolding change_events Leaves is_handling
  change_events-Leaves change e p e' h = elim (Option-cases (e.objects p)) [
    | inl gone ↦ ground (arith, gone, h)
    | inr (c, live) ↦
        let e1 : Epoller lib = record e {
          objects = update e.objects p (some (record c { events = change c.events }));
        } in
        let at : e1.objects p ≡ some (record c { events = change c.events }) = ground arith in
        update_channel-Leaves e1 p (record c { events = change c.events }) at e'
          (ground (arith, live, h))
        ∙ ground (arith, live)
  ]

  -- To remove a channel leaves its flag.
  pub remove_channel-Leaves :
      (e : Epoller lib) (p : ℕ) → Leaves p (is_handling e p) (remove_channel e p)
  unfolding remove_channel del_channel_list_item Leaves is_handling
  remove_channel-Leaves e p e' h = ground (arith, h)
