-- ===== src/Worker/Process.antt =====
-- project/workers/src/worker_process.cpp and include/worker_process.h: what a worker process holds,
-- and the operating system around it. The class of the connections is a parameter (Clients).
-- Log lines are not modelled.
pub mod Step
pub mod Run
pub mod Connections
pub mod Lawful
use mohican.Common.{ℕ, Bool, true, false, ◌||◌, Option, List, [], ◌∷◌, Result, ok, throw, undefined}
use mohican.Common.Table.{Table}
use mohican.Worker.Connection.Stage.{Status}

-- ev.events: EPOLLIN, EPOLLIN | EPOLLET, EPOLLOUT
pub data Mask : Type 0 where
  epollin epollin_et epollout : Mask

-- The union ev.data, by the member that was written last. The test of data.fd against the listening
-- socket takes no pointer for it.
pub data Data : Type 0 where
  of_fd : ℕ → Data
  of_ptr : ℕ → Data

-- An entry of the interest list of epoll; its key is the descriptor.
pub record Watch : Type 0 where
  pub events : Mask
  pub event_data : Data

-- A class of connections: `World` is what the system calls of one event give, and
-- `is_proxy_closed` tells whether connection_processing has closed the socket of the upstream.
pub record Clients : Type 1 where
  pub Client : Type 0
  pub World : Type 0
  pub create : Client
  pub set_socket : ℕ → Client → Client
  pub connection_processing : World → Client → Result Status × Client
  pub sock : Client → Option ℕ
  pub proxy_sock : Client → Option ℕ
  pub is_proxy_closed : Client → Bool

module _ (k : Clients) where
  -- The globals is_hard_stop, is_soft_stop and is_soft_reload, the members of WorkerProcess, the
  -- interest list, and the objects that `new` has given, each under its address.
  pub record Worker : Type 0 where
    pub is_hard_stop : Bool
    pub is_soft_stop : Bool
    pub is_soft_reload : Bool
    pub listen_sock : ℕ
    pub watched : Table Watch
    pub clients : Table k.Client
    pub next_pointer : ℕ

-- The signals with a handler; SIGPIPE is ignored.
pub data Signal : Type 0 where
  sighup sigint sigpoll : Signal

-- What may happen to an event: whether `new` gives memory, what accept gives (none for -1), and
-- what the connection's own calls give.
pub record Turn (k : Clients) : Type 0 where
  pub is_allocated : Bool
  pub accepted : Option ℕ
  pub world : k.World

-- What happens from one call of epoll_wait to the next: signals come, and descriptors are ready in
-- the order of the array `events`.
pub data Happening (k : Clients) : Type 0 where
  signal : Signal → Happening k
  ready : ℕ → Turn k → Happening k

-- The same with the data that epoll_wait stored in the array.
pub data Event (k : Clients) : Type 0 where
  signalled : Signal → Event k
  reported : Data → Turn k → Event k

-- How `run` ends: by exit(0), or it waits in epoll_wait.
pub data End : Type 0 where
  exited waiting : End
