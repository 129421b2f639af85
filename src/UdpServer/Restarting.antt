-- ===== src/UdpServer/Restarting.antt =====
-- What an error of the socket does to a server of src/udp_server.cc.
use base_linux.Base.{
  ℕ, ◌≡◌, ◌≢◌, refl, sym, ap, ◌∙◌, inl, inr, Bool, true, false, Option, none, some, arith, update,
  Option-cases, ◌>>=◌, ◌++◌,
}
use base_linux.Channel.{all_off}
use base_linux.Epoller.{EpollLib, Epoller, change_events, remove_channel}
use base_linux.Epoller.Handling.{is_handling, Leaves, change_events-Leaves, remove_channel-Leaves}
use base_linux.Socket.{Setting}
use base_linux.DatagramSocket.{shutdown}
use base_linux.UdpServer.{
  UdpServer, UdpReceiver, on_channel, new_receiver, delete_receiver, receiver_stop,
  on_receiver_error, handle_error, handle_event_error,
}

-- A step before a chain that faults
bind_none {ℓ κ} :
    {A : Type ℓ} {B : Type κ} (o : Option A) (f : A → Option B)
    → ((a : A) → o ≡ some a → f a ≡ none)
    → (o >>= f) ≡ none
bind_none none f h = refl
bind_none (some a) f h = h a refl

module _ {lib : EpollLib} where
  on_channel-Leaves :
      (call : Epoller lib → ℕ → Option (Epoller lib)) (s s' : UdpServer lib) (p q : ℕ)
      → Leaves q (is_handling s.poller q) (call s.poller p)
      → on_channel call s p ≡ some s'
      → (is_handling s'.poller q ≡ is_handling s.poller q) × (s'.receiver ≡ s.receiver)
  unfolding Leaves
  on_channel-Leaves call s s' p q leaves h = elim (Option-cases (call s.poller p)) [
    | inl stuck ↦ ground (arith, stuck, h)
    | inr (e, run) ↦
        let same : s' ≡ record s { poller = e } = ground (arith, run, h) in
        (
          ap (λ (x : UdpServer lib). is_handling x.poller q) same ∙ leaves e run,
          ap (λ (x : UdpServer lib). x.receiver) same,
        )
  ]

  -- A receiver whose channel handles an event cannot be deleted.
  delete_receiver-none :
      (r : UdpReceiver) (s : UdpServer lib)
      → is_handling s.poller r.channel ≡ true
      → delete_receiver r s ≡ none
  unfolding delete_receiver is_handling
  delete_receiver-none r s busy =
      bind_none (on_channel (change_events all_off) s r.channel) _ (λ s1 h1.
        let (kept, same) =
          on_channel-Leaves (change_events all_off) s s1 r.channel r.channel
            (change_events-Leaves all_off s.poller r.channel) h1 in
        bind_none (on_channel remove_channel s1 r.channel) _ (λ s2 h2.
          let (kept', same') =
            on_channel-Leaves remove_channel s1 s2 r.channel r.channel
              (remove_channel-Leaves s1.poller r.channel) h2 in
          let still : is_handling s2.poller r.channel ≡ true = kept' ∙ kept ∙ busy in
          bind_none (s2.poller.objects r.channel) _ (λ c there. ground (arith, there, still))))

  receiver_stop-Leaves :
      (s s' : UdpServer lib) (q : ℕ)
      → q ≡ s.receiver.channel
      → receiver_stop s ≡ some s'
      → (is_handling s'.poller q ≡ is_handling s.poller q) × (s'.receiver ≡ s.receiver)
  unfolding receiver_stop
  receiver_stop-Leaves s s' q at h =
      elim (Option-cases (on_channel (change_events all_off) s s.receiver.channel)) [
        | inl stuck ↦ ground (arith, stuck, h)
        | inr (s1, run) ↦
            let (kept, same) =
              on_channel-Leaves (change_events all_off) s s1 s.receiver.channel q
                (rw at (change_events-Leaves all_off s.poller s.receiver.channel)) run in
            let end : s' ≡ record s1 { shut = s1.shut ++ shutdown true false } =
              ground (arith, run, h) in
            (
              ap (λ (x : UdpServer lib). is_handling x.poller q) end ∙ kept,
              ap (λ (x : UdpServer lib). x.receiver) end ∙ same,
            )
      ]

  new_receiver-Leaves :
      (setsockopt : Setting → Bool) (p fd q : ℕ) (s s' : UdpServer lib) (r : UdpReceiver)
      → p ≢ q
      → new_receiver setsockopt p fd s ≡ some (s', r)
      → (is_handling s'.poller q ≡ is_handling s.poller q) × (s'.receiver ≡ s.receiver)
  unfolding new_receiver is_handling
  new_receiver-Leaves setsockopt p fd q s s' r apart h =
      (ground (arith, h, apart), ground (arith, h))

  on_receiver_error-none :
      (setsockopt : Setting → Bool) (p fd q : ℕ) (s : UdpServer lib)
      → q ≡ s.receiver.channel
      → p ≢ q
      → is_handling s.poller q ≡ true
      → on_receiver_error setsockopt p fd s ≡ none
  unfolding on_receiver_error
  on_receiver_error-none setsockopt p fd q s at apart busy = bind_none (receiver_stop s) _ (λ s1 h1.
      let (kept, same) = receiver_stop-Leaves s s1 q at h1 in
      bind_none (new_receiver setsockopt p fd s1) _ (λ made h2.
        let (kept', same') = new_receiver-Leaves setsockopt p fd q s1 made.0 made.1 apart h2 in
        let here : made.0.receiver.channel ≡ q =
          ap (λ (x : UdpReceiver). x.channel) (same' ∙ same) ∙ sym at in
        let still : is_handling made.0.poller made.0.receiver.channel ≡ true =
          ap (is_handling made.0.poller) here ∙ kept' ∙ kept ∙ busy in
        let stuck = delete_receiver-none made.0.receiver made.0 still in rw stuck refl))

  -- When the receiver's channel handles an error while the server's callback for errors is set,
  -- as Start sets it, an assert fails, whatever the kernel answers and wherever the new channel
  -- is: OnReceiverError, called out of the channel's HandleEvent, deletes the receiver with
  -- this channel, against the assert of Channel's destructor, if no other assert fails before.
  pub handle_event_error-none :
      (setsockopt : Setting → Bool) (p fd : ℕ) (s : UdpServer lib)
      → s.receiver.callback_error ≡ true
      → s.poller.objects p ≡ none
      → handle_event_error setsockopt p fd s ≡ none
  unfolding handle_event_error handle_error is_handling
  handle_event_error-none setsockopt p fd s set free =
      elim (Option-cases (s.poller.objects s.receiver.channel)) [
        | inl gone ↦ rw gone refl
        | inr (c, there) ↦
            let q = s.receiver.channel in
            let apart : p ≢ q = λ e.
              let no : none ≡ some c = sym free ∙ ap s.poller.objects e ∙ there in absurd (cc) in
            let s1 : UdpServer lib = record s {
              poller = record s.poller {
                objects = update s.poller.objects q (some (record c { handling = true }));
              };
            } in
            let busy : is_handling s1.poller q ≡ true = ground arith in
            let fails : handle_error setsockopt p fd s1 ≡ none =
              bind_none (on_channel (change_events all_off) s1 q) _ (λ s2 h2.
                let (kept, same) =
                  on_channel-Leaves (change_events all_off) s1 s2 q q
                    (change_events-Leaves all_off s1.poller q) h2 in
                bind_none (on_channel remove_channel s2 q) _ (λ s3 h3.
                  let (kept', same') =
                    on_channel-Leaves remove_channel s2 s3 q q (remove_channel-Leaves s2.poller q)
                      h3 in
                  let at : q ≡ s3.receiver.channel =
                    ap (λ (x : UdpReceiver). x.channel) (sym (same' ∙ same)) in
                  rw set (
                    on_receiver_error-none setsockopt p fd q s3 at apart (kept' ∙ kept ∙ busy)))) in
            rw (there, fails) refl
      ]
