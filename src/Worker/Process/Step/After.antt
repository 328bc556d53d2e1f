-- ===== src/Worker/Process/Step/After.antt =====
-- worker_process.cpp: the interest list behind a call of connection_processing.
use mohican.Common.{
  ℕ, ◌≡◌, refl, sym, ◌∙◌, ◌⊎◌, inl, inr, Bool, true, false, Option, none, some, Option-cases, ok,
  undefined, Method, ◌>>=◌, return,
}
use mathlib.Core.Path.{subst}
use mohican.Common.Table.{lookup}
use mohican.Worker.Connection.Stage.{Status}
use mohican.Worker.Process.{Mask, Clients, Worker}
use mohican.Worker.Process.Step.{
  close, close_if, epoll_del, put_client, client_sock, upstream_sock, end_client, checkout_proxy,
  checkout_client, after_processing, process_client,
}
use mohican.Worker.Process.Step.Sound.{
  IsLawful, Watches, Owns, IsSound, epoll_del-Watches, epoll_del-IsSound, put_client-IsSound,
  epoll_add-IsSound, delete-IsSound, lookup_unique,
}

-- The statuses that end a connection.
abbrev pub is_ending : Status → Bool
is_ending Status.connection_finished = true
is_ending Status.connection_timeout_error = true
is_ending Status.error_while_connection_processing = true
is_ending status = false

module _ (k : Clients) where
  -- A connection with a socket that was set, or one whose socket is read before it is set.
  data Read (get : k.Client → Option ℕ) (m : Method (Worker k) ℕ) (p : ℕ) (w : Worker k)
      : Type 0 where
    unset : m w ≡ (undefined, w) → Read get m p w
    set :
        (c : k.Client) (fd : ℕ)
        → lookup p w.clients ≡ some c
        → get c ≡ some fd
        → m w ≡ (ok fd, w)
        → Read get m p w

  client_sock-Read : (p : ℕ) (w : Worker k) → Read k.sock (client_sock k p) p w
  unfolding ◌>>=◌
  client_sock-Read p w = elim (Option-cases (lookup p w.clients)) [
    | inl e ↦ unset (rw e refl)
    | inr (c, e) ↦ elim (Option-cases (k.sock c)) [
      | inl e' ↦ unset (rw (e, e') refl)
      | inr (fd, e') ↦ set c fd e e' (rw (e, e') refl)
    ]
  ]

  upstream_sock-Read : (p : ℕ) (w : Worker k) → Read k.proxy_sock (upstream_sock k p) p w
  unfolding ◌>>=◌
  upstream_sock-Read p w = elim (Option-cases (lookup p w.clients)) [
    | inl e ↦ unset (rw e refl)
    | inr (c, e) ↦ elim (Option-cases (k.proxy_sock c)) [
      | inl e' ↦ unset (rw (e, e') refl)
      | inr (fd, e') ↦ set c fd e e' (rw (e, e') refl)
    ]
  ]

  -- The worker behind a call of connection_processing that leaves c' in the object at p.
  abbrev pub processed : ℕ → k.Client → Worker k → Worker k
  processed p c' w = close_if k (k.is_proxy_closed c') (k.proxy_sock c') (put_client k p c' w)

  pub process_client-some :
      (p : ℕ) (world : k.World) (c : k.Client) (w : Worker k)
      → lookup p w.clients ≡ some c
      → process_client k p world w
        ≡ ((k.connection_processing world c).0, processed p (k.connection_processing world c).1 w)
  unfolding process_client ◌>>=◌
  process_client-some p world c w e = rw e refl

  pub process_client-none :
      (p : ℕ) (world : k.World) (w : Worker k)
      → lookup p w.clients ≡ none
      → process_client k p world w ≡ (undefined, w)
  unfolding process_client ◌>>=◌
  process_client-none p world w e = rw e refl

module _ {k : Clients} (laws : IsLawful k) where
  close_if-IsSound :
      (b : Bool) (fd : Option ℕ) (w : Worker k) → IsSound laws w → IsSound laws (close_if k b fd w)
  close_if-IsSound false fd w s = s
  close_if-IsSound true none w s = s
  close_if-IsSound true (some fd) w s = epoll_del-IsSound laws fd w s

  pub process_client-IsSound :
      (p : ℕ) (world : k.World) (w : Worker k)
      → IsSound laws w
      → IsSound laws (process_client k p world w).1
  process_client-IsSound p world w s = elim (Option-cases (lookup p w.clients)) [
    | inl e ↦ rw (process_client-none k p world w e) s
    | inr (c, e) ↦
        let c' = (k.connection_processing world c).1 in
        let v = (s.valid p c e).0 in
        let owns : (fd : ℕ) → Owns k c fd → Owns k c' fd = λ fd o. elim o [
          | inl h ↦ inl (laws.sock-processing world c v ∙ h)
          | inr h ↦ inr (laws.proxy_sock-processing world c fd v h)
        ] in
        rw (process_client-some k p world c w e) (
          close_if-IsSound _ _ _
            (put_client-IsSound laws p c c' w e (laws.processing-Valid world c v) owns s))
  ]

  -- The object at p, if it is watched, is watched on the socket of its client.
  abbrev pub IsReleased : ℕ → Worker k → Type 0
  IsReleased p w =
      (c : k.Client) (fd : ℕ)
      → lookup p w.clients ≡ some c
      → k.proxy_sock c ≡ some fd
      → ¬ Watches k w p fd

  -- Without the entry for one of its sockets, an object is watched on the other one at most.
  other_socket :
      (p fd gone other : ℕ) (c : k.Client) (w : Worker k)
      → IsSound laws w
      → lookup p w.clients ≡ some c
      → ((fd' : ℕ) → Owns k c fd' → (fd' ≡ gone) ⊎ (fd' ≡ other))
      → Watches k (epoll_del k gone w) p fd
      → fd ≡ other
  other_socket p fd gone other c w s e owns h =
      let (n, h') = epoll_del-Watches laws gone fd p w h in
      let (d, e', o) = s.live fd p h' in
      elim (owns fd (subst (λ x. Owns k x fd) (lookup_unique laws w p p d c refl e' e) o)) [
        | inl g ↦ absurd (n (sym g))
        | inr o' ↦ o'
      ]

  same_some : {a b : ℕ} (o : Option ℕ) → o ≡ some a → o ≡ some b → a ≡ b
  same_some o e e' = cc

  sockets :
      (c : k.Client) (a b : ℕ)
      → k.sock c ≡ some a
      → k.proxy_sock c ≡ some b
      → (fd : ℕ) → Owns k c fd
      → (fd ≡ a) ⊎ (fd ≡ b)
  sockets c a b e e' fd (inl h) = inl (same_some (k.sock c) h e)
  sockets c a b e e' fd (inr h) = inr (same_some (k.proxy_sock c) h e')

  end_client-IsSound :
      (p : ℕ) (w : Worker k) → IsSound laws w → IsReleased p w → IsSound laws (end_client k p w).1
  unfolding ◌>>=◌
  end_client-IsSound p w s h = elim (client_sock-Read k p w) [
    | unset e ↦ rw e s
    | set c fd e e' r ↦
        let after = epoll_del-IsSound laws fd _ (epoll_del-IsSound laws fd w s) in
        let unwatched : (fd' : ℕ) → ¬ Watches k (epoll_del k fd (close k fd w)) p fd' = λ fd' hw.
          let (n, h1) = epoll_del-Watches laws fd fd' p (close k fd w) hw in
          let (n', h2) = epoll_del-Watches laws fd fd' p w h1 in
          let (d, e1, o) = s.live fd' p h2 in
          let o' = subst (λ x. Owns k x fd') (lookup_unique laws w p p d c refl e1 e) o in
          elim o' [ inl at ↦ n (same_some (k.sock c) e' at) | inr at ↦ h c fd' e at h2 ] in
        rw r (delete-IsSound laws p _ unwatched after)
  ]

  checkout_proxy-IsSound :
      (events : Mask) (p : ℕ) (w : Worker k)
      → IsSound laws w
      → IsSound laws (checkout_proxy k events p w).1
  unfolding ◌>>=◌
  checkout_proxy-IsSound events p w s = elim (client_sock-Read k p w) [
    | unset e ↦ rw e s
    | set c fd e e' r ↦ rw r (elim (upstream_sock-Read k p (epoll_del k fd w)) [
      | unset r' ↦ rw r' (epoll_del-IsSound laws fd w s)
      | set d u e1 at r' ↦
          let same = lookup_unique laws w p p c d refl e e1 in
          let owns = sockets d fd u (subst (λ x. k.sock x ≡ some fd) same e') at in
          rw r' (
            epoll_add-IsSound laws u p events d (epoll_del k fd w) e1 (inr at)
              (λ fd' hw. other_socket p fd' fd u d w s e1 owns hw) (epoll_del-IsSound laws fd w s))
    ])
  ]

  checkout_client-IsSound :
      (events : Mask) (p : ℕ) (w : Worker k)
      → IsSound laws w
      → IsSound laws (checkout_client k events p w).1
  unfolding ◌>>=◌
  checkout_client-IsSound events p w s = elim (upstream_sock-Read k p w) [
    | unset e ↦ rw e s
    | set c u e at r ↦ rw r (elim (client_sock-Read k p (epoll_del k u w)) [
      | unset r' ↦ rw r' (epoll_del-IsSound laws u w s)
      | set d fd e1 e' r' ↦
          let same = lookup_unique laws w p p c d refl e e1 in
          let both = sockets d fd u e' (subst (λ x. k.proxy_sock x ≡ some u) same at) in
          let owns : (x : ℕ) → Owns k d x → (x ≡ u) ⊎ (x ≡ fd) =
            λ x o. elim (both x o) [ inl h ↦ inr h | inr h ↦ inl h ] in
          rw r' (
            epoll_add-IsSound laws fd p events d (epoll_del k u w) e1 (inl e')
              (λ x hw. other_socket p x u fd d w s e1 owns hw) (epoll_del-IsSound laws u w s))
    ])
  ]

  pub after_processing-IsSound :
      (status : Status) (p : ℕ) (w : Worker k)
      → IsSound laws w
      → (is_ending status ≡ true → IsReleased p w)
      → IsSound laws (after_processing k status p w).1
  unfolding after_processing return
  after_processing-IsSound Status.connection_finished p w s h = end_client-IsSound p w s (h refl)
  after_processing-IsSound Status.connection_timeout_error p w s h =
      end_client-IsSound p w s (h refl)
  after_processing-IsSound Status.error_while_connection_processing p w s h =
      end_client-IsSound p w s (h refl)
  after_processing-IsSound Status.checkout_proxy_for_read p w s h = checkout_proxy-IsSound _ p w s
  after_processing-IsSound Status.checkout_proxy_for_write p w s h = checkout_proxy-IsSound _ p w s
  after_processing-IsSound Status.checkout_client_for_read p w s h = checkout_client-IsSound _ p w s
  after_processing-IsSound Status.checkout_client_for_write p w s h =
      checkout_client-IsSound _ p w s
  after_processing-IsSound Status.connection_processing p w s h = s
  after_processing-IsSound Status.connection_proxy p w s h = s
