-- ===== src/Worker/Process/Step/Checkout.antt =====
-- worker_process.cpp: a checkout to the socket of the upstream or to the one of the client.
use mohican.Common.{arith, ℕ, ◌≡◌, ◌≢◌, refl, sym, ◌∙◌, none, some, ok, ◌>>=◌}
use mathlib.Core.Path.{subst}
use mohican.Common.Table.{
  lookup, remove, remove-same, remove-other, add-same, add-other, has, lookup-add,
}
use mohican.Worker.Connection.Stage.{Status}
use mohican.Worker.Process.{Mask, epollin, epollout, of_ptr, Watch, Clients, Worker}
use mohican.Worker.Process.Step.{
  epoll_add, epoll_del, checkout_proxy, checkout_client, after_processing,
}
use mohican.Worker.Process.Step.Sound.{watch_of}

-- A status that moves the connection c from one of its sockets to the other, and the event that it
-- waits for there.
pub data Moves (k : Clients) (c : k.Client) : Status → Mask → ℕ → ℕ → Type 0 where
  proxy_for_read :
      {a b : ℕ}
      → k.sock c ≡ some a
      → k.proxy_sock c ≡ some b
      → Moves k c Status.checkout_proxy_for_read epollin a b
  proxy_for_write :
      {a b : ℕ}
      → k.sock c ≡ some a
      → k.proxy_sock c ≡ some b
      → Moves k c Status.checkout_proxy_for_write epollout a b
  client_for_read :
      {a b : ℕ}
      → k.proxy_sock c ≡ some a
      → k.sock c ≡ some b
      → Moves k c Status.checkout_client_for_read epollin a b
  client_for_write :
      {a b : ℕ}
      → k.proxy_sock c ≡ some a
      → k.sock c ≡ some b
      → Moves k c Status.checkout_client_for_write epollout a b

module _ {k : Clients} (p : ℕ) (w : Worker k) (c : k.Client)
    (found : lookup p w.clients ≡ some c) where
  abbrev moved : Mask → ℕ → ℕ → Worker k
  moved m from to = epoll_add k to m (of_ptr p) (epoll_del k from w)

  checkout_proxy-moved :
      (m : Mask) (a b : ℕ)
      → k.sock c ≡ some a
      → k.proxy_sock c ≡ some b
      → checkout_proxy k m p w ≡ (ok tt, moved m a b)
  unfolding ◌>>=◌
  checkout_proxy-moved m a b e e' = rw (found, e, found, e') refl

  checkout_client-moved :
      (m : Mask) (a b : ℕ)
      → k.proxy_sock c ≡ some a
      → k.sock c ≡ some b
      → checkout_client k m p w ≡ (ok tt, moved m a b)
  unfolding ◌>>=◌
  checkout_client-moved m a b e e' = rw (found, e, found, e') refl

  after_processing-moved :
      {status : Status} {m : Mask} {from to : ℕ}
      → Moves k c status m from to
      → after_processing k status p w ≡ (ok tt, moved m from to)
  unfolding after_processing
  after_processing-moved (proxy_for_read e e') = checkout_proxy-moved _ _ _ e e'
  after_processing-moved (proxy_for_write e e') = checkout_proxy-moved _ _ _ e e'
  after_processing-moved (client_for_read e e') = checkout_client-moved _ _ _ e e'
  after_processing-moved (client_for_write e e') = checkout_client-moved _ _ _ e e'

  -- What a checkout does to the interest list.
  pub record IsMoved (m : Mask) (from to : ℕ) (w' : Worker k) : Type 0 where
    pub left : lookup from w'.watched ≡ none
    pub arrived : lookup to w.watched ≡ none → lookup to w'.watched ≡ some (watch_of m p)
    pub kept :
        (watch : Watch) → lookup to w.watched ≡ some watch → lookup to w'.watched ≡ some watch
    pub others : (fd : ℕ) → from ≢ fd → to ≢ fd → lookup fd w'.watched ≡ lookup fd w.watched
    pub clients : w'.clients ≡ w.clients

  moved-IsMoved : (m : Mask) (from to : ℕ) → from ≢ to → IsMoved m from to (moved m from to)
  unfolding has
  moved-IsMoved m from to n = record {
    left = add-other from to _ _ (λ e. n (sym e)) ∙ remove-same from w.watched;
    arrived = λ e. add-same to _ _ (remove-other to from w.watched n ∙ e);
    kept = λ watch e.
        let e' = remove-other to from w.watched n ∙ e in
        ground (arith, lookup-add to to (watch_of m p) (remove from w.watched), e');
    others = λ fd n1 n2. add-other fd to _ _ n2 ∙ remove-other fd from w.watched n1;
    clients = refl;
  }

  -- Each of the four checkouts of a connection that is there, with two different sockets,
  -- succeeds. It takes the socket that it leaves off the interest list. It watches the other one
  -- for the connection and the event of the status if nothing was watched there; an entry that was
  -- there stays as it was. No other descriptor and no object changes.
  pub after_processing-IsMoved :
      {status : Status} {m : Mask} {from to : ℕ}
      → Moves k c status m from to
      → from ≢ to
      → ((after_processing k status p w).0 ≡ ok tt)
        × IsMoved m from to (after_processing k status p w).1
  after_processing-IsMoved {m = m} {from = from} {to = to} moves n =
      subst (λ r. (r.0 ≡ ok tt) × IsMoved m from to r.1) (sym (after_processing-moved moves))
        (refl, moved-IsMoved m from to n)
