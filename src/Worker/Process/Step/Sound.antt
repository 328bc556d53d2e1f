-- ===== src/Worker/Process/Step/Sound.antt =====
-- worker_process.cpp: what the interest list says of the connections, and how the changes that the
-- loop makes keep it.
use mohican.Common.{arith, ℕ, suc, ◌<◌, ◌≡◌, ◌≢◌, ap, sym, ◌∙◌, ◌⊎◌, inl, inr, none, some}
use mohican.Common.Table.{
  lookup, store, remove-some, store-some, store-same, store-other, add-some, remove-other,
}
use mathlib.Core.Path.{subst}
use native.Mathlib.Decide.{ℕ_discrete}
use mohican.Worker.Process.{Mask, of_ptr, Watch, Clients, Worker}
use mohican.Worker.Process.Step.{epoll_add, epoll_del, put_client, delete}

abbrev pub watch_of : Mask → ℕ → Watch
watch_of m p = record { events = m; event_data = of_ptr p }

-- What the loop needs of the class of the connections: an object keeps the socket of its client,
-- and connects to one upstream at most. `Valid` is the invariant of the objects.
pub record IsLawful (k : Clients) : Type 1 where
  pub Valid : k.Client → Type 0
  pub create-Valid : Valid k.create
  pub sock-create : k.sock k.create ≡ none
  pub proxy_sock-create : k.proxy_sock k.create ≡ none
  pub set_socket-Valid : (fd : ℕ) → Valid (k.set_socket fd k.create)
  pub sock-set_socket : (fd : ℕ) → k.sock (k.set_socket fd k.create) ≡ some fd
  pub processing-Valid :
      (world : k.World) (c : k.Client) → Valid c → Valid (k.connection_processing world c).1
  pub sock-processing :
      (world : k.World) (c : k.Client)
      → Valid c
      → k.sock (k.connection_processing world c).1 ≡ k.sock c
  pub proxy_sock-processing :
      (world : k.World) (c : k.Client) (fd : ℕ)
      → Valid c
      → k.proxy_sock c ≡ some fd
      → k.proxy_sock (k.connection_processing world c).1 ≡ some fd

module _ (k : Clients) where
  -- The descriptor fd is watched for the object at p.
  abbrev pub Watches : Worker k → ℕ → ℕ → Type 0
  Watches w p fd = (m : Mask) × (lookup fd w.watched ≡ some (watch_of m p))

  -- One of the sockets of the connection.
  abbrev pub Owns : k.Client → ℕ → Type 0
  Owns c fd = (k.sock c ≡ some fd) ⊎ (k.proxy_sock c ≡ some fd)

module _ {k : Clients} (laws : IsLawful k) where
  -- A descriptor that is watched for an object is a socket of an object that is there; an object is
  -- watched on one socket at most; and every object is valid and has an address below the next one.
  pub record IsSound (w : Worker k) : Type 0 where
    pub live :
        (fd p : ℕ) → Watches k w p fd → (c : k.Client) × (lookup p w.clients ≡ some c) × Owns k c fd
    pub once : (fd fd' p : ℕ) → Watches k w p fd → Watches k w p fd' → fd ≡ fd'
    pub valid :
        (p : ℕ) (c : k.Client) → lookup p w.clients ≡ some c → laws.Valid c × (p < w.next_pointer)

  pub epoll_del-Watches :
      (fd fd' p : ℕ) (w : Worker k)
      → Watches k (epoll_del k fd w) p fd'
      → (fd ≢ fd') × Watches k w p fd'
  epoll_del-Watches fd fd' p w (m, e) =
      let (n, e') = remove-some fd' fd w.watched _ e in (n, (m, e'))

  pub epoll_del-IsSound : (fd : ℕ) (w : Worker k) → IsSound w → IsSound (epoll_del k fd w)
  epoll_del-IsSound fd w s = record {
    live = λ fd' p h. s.live fd' p (epoll_del-Watches fd fd' p w h).1;
    once = λ a b p h h'.
        s.once a b p (epoll_del-Watches fd a p w h).1 (epoll_del-Watches fd b p w h').1;
    valid = s.valid;
  }

  pub lookup_unique :
      (w : Worker k) (p q : ℕ) (c d : k.Client)
      → p ≡ q
      → lookup p w.clients ≡ some c
      → lookup q w.clients ≡ some d
      → c ≡ d
  lookup_unique w p q c d same e e' = cc

  pub put_client-IsSound :
      (p : ℕ) (c c' : k.Client) (w : Worker k)
      → lookup p w.clients ≡ some c
      → laws.Valid c'
      → ((fd : ℕ) → Owns k c fd → Owns k c' fd)
      → IsSound w
      → IsSound (put_client k p c' w)
  put_client-IsSound p c c' w e v owns s = record {
    live = λ fd q h.
        let (d, e', o) = s.live fd q h in
        elim (ℕ_discrete p q) [
          | yes same ↦
              let o' =
                owns fd (subst (λ x. Owns k x fd) (lookup_unique w q p d c (sym same) e' e) o) in
              (
                c',
                ap (λ x. lookup x (store p c' w.clients)) (sym same) ∙ store-same p c' w.clients,
                o',
              )
          | no other ↦ (d, store-other q p c' w.clients other ∙ e', o)
        ];
    once = s.once;
    valid = λ q d h. elim (store-some q p c' d w.clients h) [
      | inl (same, e') ↦
          (subst laws.Valid e' v, subst (λ x. x < w.next_pointer) same (s.valid p c e).1)
      | inr (other, h') ↦ s.valid q d h'
    ];
  }

  -- A socket of an object that is watched on no other socket is put on the list.
  pub epoll_add-IsSound :
      (fd p : ℕ) (m : Mask) (c : k.Client) (w : Worker k)
      → lookup p w.clients ≡ some c
      → Owns k c fd
      → ((fd' : ℕ) → Watches k w p fd' → fd' ≡ fd)
      → IsSound w
      → IsSound (epoll_add k fd m (of_ptr p) w)
  epoll_add-IsSound fd p m c w e owns alone s = record {
    live = λ fd' q h. elim (added fd' q h) [
      | inl (at, same) ↦ (c, ap (λ x. lookup x w.clients) (sym same) ∙ e, subst (Owns k c) at owns)
      | inr h' ↦ s.live fd' q h'
    ];
    once = λ a b q h h'. elim (added a q h) [
      | inl (at, same) ↦ elim (added b q h') [
        | inl (at', same') ↦ sym at ∙ at'
        | inr old' ↦ sym at ∙ sym (alone b (subst (λ x. Watches k w x b) (sym same) old'))
      ]
      | inr old ↦ elim (added b q h') [
        | inl (at', same') ↦ alone a (subst (λ x. Watches k w x a) (sym same') old) ∙ at'
        | inr old' ↦ s.once a b q old old'
      ]
    ];
    valid = s.valid;
  }
    where
      added :
          (fd' q : ℕ)
          → Watches k (epoll_add k fd m (of_ptr p) w) q fd'
          → (fd ≡ fd') × (p ≡ q) ⊎ Watches k w q fd'
      added fd' q (m', h) = elim (add-some fd' fd (watch_of m p) (watch_of m' q) w.watched h) [
        | inl (at, same) ↦ inl (at, cc)
        | inr h' ↦ inr (m', h')
      ]

  pub delete-IsSound :
      (p : ℕ) (w : Worker k) → ((fd : ℕ) → ¬ Watches k w p fd) → IsSound w → IsSound (delete k p w)
  delete-IsSound p w unwatched s = record {
    live = λ fd q h.
        let (c, e, o) = s.live fd q h in
        (
          c,
          remove-other q p w.clients
                (λ same. unwatched fd (subst (λ x. Watches k w x fd) (sym same) h))
              ∙ e,
          o,
        );
    once = s.once;
    valid = λ q c h. s.valid q c (remove-some q p w.clients c h).1;
  }

  -- An object at the next address, which no entry has.
  pub new-IsSound :
      (c : k.Client) (w : Worker k)
      → laws.Valid c
      → IsSound w
      → IsSound (record (put_client k w.next_pointer c w) { next_pointer = suc w.next_pointer })
  new-IsSound c w v s = record {
    live = λ fd q h.
        let (d, e, o) = s.live fd q h in
        let less = (s.valid q d e).1 in
        (d, store-other q w.next_pointer c w.clients (λ same. absurd (omega arith)) ∙ e, o);
    once = s.once;
    valid = λ q d h. elim (store-some q w.next_pointer c d w.clients h) [
      | inl (same, e') ↦ (subst laws.Valid e' v, omega arith)
      | inr (other, h') ↦ let (v', less) = s.valid q d h' in (v', omega arith)
    ];
  }
