-- ===== src/Server/Start/Socket.antt =====
-- mohican_server.cpp: bind_listen_sock.
use mohican.Common.{arith, ℕ, ◌≡◌, refl, ap, Bool, true, false, ◌&&◌, Option, none, some}
use mohican.Server.{Binding, Master, value}
use mohican.Server.Start.{listens, bind_listen_sock}

-- There is a socket.
abbrev pub has_socket : Option ℕ → Bool
has_socket none = false
has_socket (some fd) = true

-- Every call on the socket but inet_aton succeeds.
abbrev pub set_up : Binding → Bool
set_up b = b.is_option_set && b.is_bound && b.is_listening

abbrev pub binds : Binding → Bool
binds b = has_socket b.socket && set_up b

listens-binds : (o : Option ℕ) (b : Binding) → listens o b ≡ (has_socket o && set_up b)
unfolding listens
listens-binds none b = refl
listens-binds (some fd) b = ground arith

-- The listening socket is ready exactly when its calls other than inet_aton succeed: an address that
-- is none goes unnoticed. The socket is stored in each case.
pub bind_listen_sock-binds :
    (m : Master)
    → bind_listen_sock m ≡ (value (binds m.binding), record m { listen_sock = m.binding.socket })
unfolding bind_listen_sock
bind_listen_sock-binds m =
    ap (λ b. (value b, record m { listen_sock = m.binding.socket }))
      (listens-binds m.binding.socket m.binding)
