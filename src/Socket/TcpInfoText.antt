-- ===== src/Socket/TcpInfoText.antt =====
-- The text of `GetTCPInfoString` of src/socket.cc and the size of its buffer.
use base_linux.Base.{
  ℕ, ◌+◌, ◌≤◌, ◌≡◌, refl, sym, subst, List, [], ◌∷◌, ◌++◌, length, length-append, take_all, arith,
}
use base_linux.InetAddress.{digits}
use base_linux.InetAddress.Reading.{length-digits}
use base_linux.Socket.{TcpInfo, entry, format, get_tcp_info, get_tcp_info_string, joined, entries}

length-entry : (name : List ℕ) (v : ℕ) → length (entry name v) ≤ length name + 10
length-entry name v =
    let short = length-digits 9 v in rw (length-append name (digits 9 v)) (omega arith)

-- A text behind an entry
length-entry-append :
    (name : List ℕ) (v n : ℕ) (rest : List ℕ)
    → length rest ≤ n
    → length (entry name v ++ rest) ≤ length name + 10 + n
length-entry-append name v n rest h =
    let first = length-entry name v in rw (length-append (entry name v) rest) (omega arith)

-- Room for a text of entries
room : List (List ℕ × ℕ) → ℕ
room [] = 0
room ((name, v) ∷ rest) = length name + 10 + room rest

length-joined : (all : List (List ℕ × ℕ)) → length (joined all) ≤ room all
unfolding joined room
length-joined [] = omega arith
length-joined ((name, v) ∷ rest) =
    length-entry-append name v (room rest) (joined rest) (length-joined rest)

-- The names and at most ten digits each
room_entries : (info : TcpInfo) → room (entries info) ≡ 220
unfolding room
room_entries info = refl

-- Whatever the kernel answers, the text of GetTCPInfoString is complete in its buffer of 256
-- bytes: it has 220 bytes at most.
pub get_tcp_info_string_lem :
    (getsockopt : TcpInfo → TcpInfo)
    → (get_tcp_info_string getsockopt ≡ format (get_tcp_info getsockopt))
      × (length (get_tcp_info_string getsockopt) ≤ 220)
unfolding get_tcp_info_string format
get_tcp_info_string_lem getsockopt =
    let fits = length-joined (entries (get_tcp_info getsockopt)) in
    let total = room_entries (get_tcp_info getsockopt) in
    let whole = take_all (format (get_tcp_info getsockopt)) 255 (omega arith) in
    let short : length (format (get_tcp_info getsockopt)) ≤ 220 = omega arith in
    (whole, subst (λ text. length text ≤ 220) (sym whole) short)
