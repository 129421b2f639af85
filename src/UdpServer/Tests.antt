-- ===== src/UdpServer/Tests.antt =====
-- A server on a small kernel, whose receiver has its channel at the address 8.
use base_linux.Base.{◌≡◌, refl, Bool, true, false, Option, none, some, [], ◌∷◌, update}
use base_linux.Base.Int.{pos}
use base_linux.InetAddress.{invalid_addr}
use base_linux.Socket.{Setting}
use base_linux.Epoller.{
  change_events, update_channel, update_new, remove_channel, add_channel_list_item,
  del_channel_list_item, last_below,
}
use base_linux.Epoller.Kernel.{kernel}
use base_linux.UdpServer.{UdpServer, receiver_channel, handle_error, handle_event_error}
use base_linux.UdpServer.Restarting.{handle_event_error-none}

abbrev accepts : Setting → Bool
accepts setting = true

abbrev server : UdpServer kernel
server = record {
  poller = record {
    objects = update (λ _. none) 8 (some (receiver_channel 3));
    channels = λ _. none;
    channel_nums = 0;
    cur_max_fd = 0;
    active_channels = none ∷ [];
    event_list_size = 1;
    egen = 0;
    kernel = λ _. none;
  };
  socket = record {
    local_addr = invalid_addr;
    server_addr = invalid_addr;
    connected = false;
    is_bind = true;
    sockfd = record { fd = pos 3; settings = [] };
  };
  receiver = record { channel = 8; pkt_size = 1500; callback_error = true };
  worker = record { running = true; pkt_queue = []; thread_list = []; handled = [] };
  shut = [];
  quit = false;
}

handle_event_error_example : handle_event_error accepts 9 3 server ≡ none
handle_event_error_example = handle_event_error-none accepts 9 3 server refl refl

-- With no callback for errors, the receiver goes through an error.
abbrev alone : UdpServer kernel
alone = record server { receiver = record { channel = 8; pkt_size = 1500; callback_error = false } }

abbrev went_through : Option (UdpServer kernel) → Bool
went_through none = false
went_through (some s) = true

handle_event_error_run : went_through (handle_event_error accepts 9 3 alone) ≡ true
unfolding handle_event_error handle_error change_events update_channel update_new remove_channel
    add_channel_list_item del_channel_list_item last_below
handle_event_error_run = refl
