-- ===== src/Worker/Os.antt =====
-- What a connection sees of the operating system. A tape holds the results of the system calls on a
-- socket in order; a socket whose tape is used up answers -1, as a non-blocking socket does when
-- nothing has arrived or its buffer is full. A variable that the program reads before it writes it
-- has any value: `stale_flag` for a bool, `stale_failed` for the test of an int against -1.
use mohican.Common.{ℕ, Bool, List, length}
use mohican.Text.{Text}
use mohican.Http.Date.{Tm}
use mohican.Http.Handler.{FileStatus, not_opened, st_size, FileSystem}

-- read of one byte: a byte, 0 at the end of the stream, or -1
pub data Received : Type 0 where
  byte : ℕ → Received
  end_of_stream : Received
  read_failed : Received

-- write: at most this many bytes are taken, or -1
pub data Written : Type 0 where
  wrote : ℕ → Written
  write_failed : Written

-- What a path names, and what an open file still has to give; `missing` is the descriptor -1.
pub data FileEntry : Type 0 where
  missing : FileEntry
  directory : ℕ → FileEntry
  regular : Text → FileEntry

pub record Stream : Type 0 where
  pub arriving : List Received
  pub accepting : List Written
  pub sent : Text

-- The outcomes of the calls that connect to an upstream.
pub record Dial : Type 0 where
  pub socket_opened : Bool
  pub socket : ℕ  -- the descriptor of an opened socket
  pub option_set : Bool
  pub resolved : Bool
  pub address_parsed : Bool
  pub connected : Bool

pub record Os : Type 0 where
  pub client : Stream
  pub proxy : Stream
  pub files : Text → FileEntry
  pub dial : Dial
  pub is_proxy_closed : Bool  -- close(proxy_sock) was called in this event
  pub seconds : ℕ → ℕ  -- clock() / CLOCKS_PER_SEC at each call
  pub ticks : ℕ
  pub now : Tm
  pub stale_flag : Bool
  pub stale_failed : Bool

pub data Socket : Type 0 where
  client_socket proxy_socket : Socket

abbrev pub stream : Socket → Os → Stream
stream client_socket os = os.client
stream proxy_socket os = os.proxy

abbrev pub set_stream : Socket → Stream → Os → Os
set_stream client_socket s os = record os { client = s }
set_stream proxy_socket s os = record os { proxy = s }

abbrev status_of : FileEntry → FileStatus
status_of missing = not_opened
status_of (directory size) = st_size size
status_of (regular content) = st_size (length content)

-- open and fstat, as the handler of a request calls them
abbrev pub file_system : Os → FileSystem
file_system os path = status_of (os.files path)
