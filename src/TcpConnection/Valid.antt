-- ===== src/TcpConnection/Valid.antt =====
-- The invariant of a connection, and what does not disturb it.
use base_linux.Base.{
  ℕ, ◌≤◌, ◌<◌, ◌≡◌, refl, Bool, true, false, not, ◌&&◌, Option, none, some, List, [], ◌∷◌, ◌++◌,
  length, arith,
}
use base_linux.Buffer.Space
use base_linux.Buffer.Space.{
  contents, HandlesOverlap, Copied-of_overlap, readable_bytes_lem, length-contents,
}
use base_linux.TcpConnection.{
  is_connected, is_connecting, Task, TcpConnection, Notice, notice_if, queue_if,
}
use base_linux.TcpConnection.Stream.{line, is_empty}

pub record IsValid (c : TcpConnection) : Type 0 where
  pub input : Space.IsValid c.buffer_input
  pub output : Space.IsValid c.buffer_output
  -- writing is watched exactly while something waits
  pub writing : c.writing ≡ (is_connected c.state && not (is_empty (contents c.buffer_output)))
  pub reading : c.reading ≡ is_connected c.state
  pub unused : is_connecting c.state ≡ true → contents c.buffer_output ≡ []
  pub removable : c.remove_cb ≡ true

-- What sending leaves as it is.
pub record Keeps (c c' : TcpConnection) : Type 0 where
  pub state : c'.state ≡ c.state
  pub input : c'.buffer_input ≡ c.buffer_input
  pub reading : c'.reading ≡ c.reading
  pub remove_cb : c'.remove_cb ≡ c.remove_cb

-- the outcome of `send` for so many bytes
abbrev pub Fits : Option ℕ → ℕ → Type 0
Fits none len = Unit {0}
Fits (some n) len = n ≤ len

pub is_empty_of_length : (xs : List ℕ) → 0 < length xs → is_empty xs ≡ false
is_empty_of_length [] h = ground (arith, h)
is_empty_of_length (x ∷ xs) h = refl

pub empty_of_is_empty : (xs : List ℕ) → is_empty xs ≡ true → xs ≡ []
empty_of_is_empty [] h = refl
empty_of_is_empty (x ∷ xs) h = cc

pub is_empty-append : (xs ys : List ℕ) → is_empty ys ≡ false → is_empty (xs ++ ys) ≡ false
is_empty-append [] ys h = h
is_empty-append (x ∷ xs) ys h = refl

-- a connection of which nothing but the bytes sent and the queue has changed
pub queue_if-IsValid :
    (c : TcpConnection) (set : Bool) (task : Task) (xs : List ℕ)
    → IsValid c
    → IsValid (queue_if set task (record c { sent = xs }))
queue_if-IsValid c true task xs v = record {
  input = v.input;
  output = v.output;
  writing = v.writing;
  reading = v.reading;
  unused = v.unused;
  removable = v.removable;
}
queue_if-IsValid c false task xs v = record {
  input = v.input;
  output = v.output;
  writing = v.writing;
  reading = v.reading;
  unused = v.unused;
  removable = v.removable;
}

pub queue_if_output :
    (c : TcpConnection) (set : Bool) (task : Task)
    → (queue_if set task c).buffer_output ≡ c.buffer_output
queue_if_output c true task = refl
queue_if_output c false task = refl

pub queue_if_sent :
    (c : TcpConnection) (set : Bool) (task : Task) → (queue_if set task c).sent ≡ c.sent
queue_if_sent c true task = refl
queue_if_sent c false task = refl

pub queue_if-Keeps :
    (c : TcpConnection) (set : Bool) (task : Task) (xs : List ℕ)
    → Keeps c (queue_if set task (record c { sent = xs }))
queue_if-Keeps c true task xs = record {
  state = refl;
  input = refl;
  reading = refl;
  remove_cb = refl;
}
queue_if-Keeps c false task xs = record {
  state = refl;
  input = refl;
  reading = refl;
  remove_cb = refl;
}

-- a connection of which only the record of the callbacks has changed
pub notice_if-IsValid :
    (c : TcpConnection) (set : Bool) (notice : Notice)
    → IsValid c
    → IsValid (notice_if set notice c)
notice_if-IsValid c true notice v = record {
  input = v.input;
  output = v.output;
  writing = v.writing;
  reading = v.reading;
  unused = v.unused;
  removable = v.removable;
}
notice_if-IsValid c false notice v = v

pub line-notice_if :
    (c : TcpConnection) (set : Bool) (notice : Notice) → line (notice_if set notice c) ≡ line c
line-notice_if c true notice = refl
line-notice_if c false notice = refl
