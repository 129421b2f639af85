-- ===== src/TcpConnection/Stream.antt =====
-- What a connection promises about its output: the bytes go out in the order in which they were
-- sent.
use base_linux.Base.{
  ℕ, ◌≡◌, Bool, true, false, Option, none, some, List, [], ◌∷◌, ◌++◌, take, drop, if◌then◌else◌,
  append-nil, zero, ap, arith,
}
use base_linux.Buffer.Space.{contents}
use base_linux.Buffer.{failed, delivered}
use base_linux.TcpConnection.{
  TcpConnection, is_connected, Event, establishes, sends, writes, reads, shuts_down, forces_close,
  closes, errs, destroys,
}

abbrev pub is_empty : List ℕ → Bool
is_empty [] = true
is_empty (x ∷ xs) = false

-- the bytes that are out, and those that wait
pub record Stream : Type 0 where
  pub out : List ℕ
  pub waiting : List ℕ

-- the stream of a connection
abbrev pub stream : TcpConnection → Stream
stream c = record { out = c.sent; waiting = contents c.buffer_output }

-- To send: at once if nothing waits, as far as the kernel takes it; otherwise behind what waits.
abbrev pub push : Stream → List ℕ → Option ℕ → Stream
push s dat none = if is_empty s.waiting then s else record s { waiting = s.waiting ++ dat }
push s dat (some n) =
    if is_empty s.waiting
    then record { out = s.out ++ take n dat; waiting = drop n dat }
    else record s { waiting = s.waiting ++ dat }

-- The kernel takes some of what waits.
abbrev pub drain : Stream → Option ℕ → Stream
drain s none = s
drain s (some n) = record { out = s.out ++ take n s.waiting; waiting = drop n s.waiting }

pub push_alone :
    (s : Stream) (dat : List ℕ) (n : ℕ)
    → is_empty s.waiting ≡ true
    → ((push s dat (some n)).out ≡ s.out ++ take n dat)
      × ((push s dat (some n)).waiting ≡ drop n dat)
push_alone s dat n h = (ground (arith, h), ground (arith, h))

pub push_behind :
    (s : Stream) (dat : List ℕ) (outcome : Option ℕ)
    → is_empty s.waiting ≡ false
    → ((push s dat outcome).out ≡ s.out) × ((push s dat outcome).waiting ≡ s.waiting ++ dat)
push_behind s dat none h = (ground (arith, h), ground (arith, h))
push_behind s dat (some n) h = (ground (arith, h), ground (arith, h))

pub drain-zero : (s : Stream) → drain s (some zero) ≡ s
drain-zero s = ap (λ xs. record s { out = xs }) (append-nil s.out)

unfoldable pub pushes : Stream → List (List ℕ × Option ℕ) → Stream
pushes s [] = s
pushes s ((dat, outcome) ∷ replies) = pushes (push s dat outcome) replies

-- A connection as its user sees it: whether it is up, and its stream.
pub record Line : Type 0 where
  pub is_up : Bool
  pub bytes : Stream

abbrev pub line : TcpConnection → Line
line c = record { is_up = is_connected c.state; bytes = stream c }

-- What each event means for the line.
abbrev pub line_step : Line → Event → Line
line_step l establishes = record l { is_up = true }
line_step l (sends dat outcome) =
    if l.is_up then record l { bytes = push l.bytes dat outcome } else l
line_step l (writes outcome) = record l { bytes = drain l.bytes outcome }
line_step l (reads (failed e) taken replies) = l
line_step l (reads (delivered []) taken replies) = record l { is_up = false }
line_step l (reads (delivered (x ∷ xs)) taken replies) = record l { bytes = pushes l.bytes replies }
line_step l shuts_down = l
line_step l forces_close = record l { is_up = false }
line_step l closes = record l { is_up = false }
line_step l errs = l
line_step l destroys = record l { is_up = false }

unfoldable pub line_run : Line → List Event → Line
line_run l [] = l
line_run l (e ∷ es) = line_run (line_step l e) es

pub Stream-ext : (s t : Stream) → s.out ≡ t.out → s.waiting ≡ t.waiting → s ≡ t
Stream-ext s t h k = ground arith

pub Line-ext : (l m : Line) → l.is_up ≡ m.is_up → l.bytes ≡ m.bytes → l ≡ m
Line-ext l m h k = ground arith
