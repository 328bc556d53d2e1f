-- ===== src/Worker/Process/Run/Reported.antt =====
-- worker_process.cpp: what epoll_wait reports, and the batches in a row.
use mohican.Common.{arith, ℕ, ◌≡◌, ◌≢◌, refl, All, Option, none, some, List, [], ◌∷◌, ◌>>=◌}
use mathlib.Core.Path.{subst}
use mohican.Common.Table.{lookup}
use mohican.Worker.Process.{
  Mask, epollin, Data, of_fd, of_ptr, Watch, Clients, Worker, Happening, signal, ready, Event,
  reported,
}
use mohican.Worker.Process.Step.Sound.{IsLawful, Watches, IsSound}
use mohican.Worker.Process.Run.{report, epoll_wait, handle_batch}
use mohican.Worker.Process.Step.Batch.{
  pointers, IsDistinct, Safe, Fair, Lives, handle_events-Safe, handle_events-IsSound,
}

-- The descriptors that are ready.
abbrev pub descriptors : {k : Clients} → List (Happening k) → List ℕ
descriptors [] = []
descriptors (signal s ∷ batch) = descriptors batch
descriptors (ready fd turn ∷ batch) = fd ∷ descriptors batch

module _ {k : Clients} (laws : IsLawful k) where
  -- Two descriptors that are ready have different objects.
  epoll_wait-apart :
      (w : Worker k) (fd p : ℕ) (batch : List (Happening k))
      → IsSound laws w
      → Watches k w p fd
      → All (λ y. fd ≢ y) (descriptors batch)
      → All (λ q. p ≢ q) (pointers (epoll_wait w.watched batch))
  unfolding epoll_wait report
  epoll_wait-apart w fd p [] s h n = tt
  epoll_wait-apart w fd p (signal x ∷ batch) s h n = epoll_wait-apart w fd p batch s h n
  epoll_wait-apart w fd p (ready fd' turn ∷ batch) s h n =
      by_watch (lookup fd' w.watched) refl (epoll_wait-apart w fd p batch s h n.1)
    where
      by_data :
          (m : Mask) (d : Data)
          → lookup fd' w.watched ≡ some (record { events = m; event_data = d })
          → All (λ q. p ≢ q) (pointers (epoll_wait w.watched batch))
          → All (λ q. p ≢ q) (pointers (reported d turn ∷ epoll_wait w.watched batch))
      by_data m (of_fd x) e rest = rest
      by_data m (of_ptr q) e rest =
          (λ same. n.0 (s.once fd fd' q (subst (λ x. Watches k w x fd) same h) (m, e)), rest)

      by_watch :
          (o : Option Watch)
          → lookup fd' w.watched ≡ o
          → All (λ q. p ≢ q) (pointers (epoll_wait w.watched batch))
          → All (λ q. p ≢ q) (pointers (report o turn (epoll_wait w.watched batch)))
      by_watch none e rest = rest
      by_watch (some v) e rest = by_data v.events v.event_data e rest

  -- What epoll_wait reports: distinct objects that are there.
  abbrev IsReported : Worker k → List (Event k) → Type 0
  IsReported w events = All (Lives laws w) (pointers events) × IsDistinct (pointers events)

  epoll_wait-IsReported :
      (w : Worker k) (batch : List (Happening k))
      → IsSound laws w
      → IsDistinct (descriptors batch)
      → IsReported w (epoll_wait w.watched batch)
  unfolding epoll_wait report
  epoll_wait-IsReported w [] s d = (tt, tt)
  epoll_wait-IsReported w (signal x ∷ batch) s d = epoll_wait-IsReported w batch s d
  epoll_wait-IsReported w (ready fd turn ∷ batch) s d =
      by_watch (lookup fd w.watched) refl (epoll_wait-IsReported w batch s d.1)
    where
      by_data :
          (m : Mask) (x : Data)
          → lookup fd w.watched ≡ some (record { events = m; event_data = x })
          → IsReported w (epoll_wait w.watched batch)
          → IsReported w (reported x turn ∷ epoll_wait w.watched batch)
      by_data m (of_fd x) e rest = rest
      by_data m (of_ptr p) e rest =
          let (c, found, o) = s.live fd p (m, e) in
          let lives : Lives laws w p = (c, (found, (s.valid p c found).1)) in
          ((lives, rest.0), (epoll_wait-apart w fd p batch s (m, e) d.0, rest.1))

      by_watch :
          (o : Option Watch)
          → lookup fd w.watched ≡ o
          → IsReported w (epoll_wait w.watched batch)
          → IsReported w (report o turn (epoll_wait w.watched batch))
      by_watch none e rest = rest
      by_watch (some v) e rest = by_data v.events v.event_data e rest

  handle_batch-Safe :
      (batch : List (Happening k)) (w : Worker k)
      → IsSound laws w
      → IsDistinct (descriptors batch)
      → Fair laws (epoll_wait w.watched batch) w
      → Safe laws (epoll_wait w.watched batch) w × IsSound laws (handle_batch k batch w).1
  unfolding handle_batch ◌>>=◌
  handle_batch-Safe batch w s d f =
      let (l, d') = epoll_wait-IsReported w batch s d in
      (
        handle_events-Safe laws (epoll_wait w.watched batch) w s l d' f,
        handle_events-IsSound laws (epoll_wait w.watched batch) w s f,
      )

  -- The batches of one epoll_wait after another.
  abbrev pub AllSafe : List (List (Happening k)) → Worker k → Type 0
  AllSafe [] w = Unit
  AllSafe (batch ∷ script) w =
      Safe laws (epoll_wait w.watched batch) w × AllSafe script (handle_batch k batch w).1

  abbrev pub AllFair : List (List (Happening k)) → Worker k → Type 0
  AllFair [] w = Unit
  AllFair (batch ∷ script) w =
      IsDistinct (descriptors batch)
      × Fair laws (epoll_wait w.watched batch) w
      × AllFair script (handle_batch k batch w).1

  batches-Safe :
      (script : List (List (Happening k))) (w : Worker k)
      → IsSound laws w
      → AllFair script w
      → AllSafe script w
  batches-Safe [] w s f = tt
  batches-Safe (batch ∷ script) w s (d, f, rest) =
      let (safe, s') = handle_batch-Safe batch w s d f in
      (safe, batches-Safe script (handle_batch k batch w).1 s' rest)

  -- A worker behind its first epoll_ctl: it has no object.
  abbrev pub started : Worker k → Worker k
  started w = record w {
    watched = (w.listen_sock, record { events = epollin; event_data = of_fd w.listen_sock }) ∷ [];
    clients = [];
  }

  not_watched : (fd p : ℕ) (w : Worker k) → ¬ Watches k (started w) p fd
  unfolding lookup
  not_watched fd p w (m, e) = ground (arith, e)

  started-IsSound : (w : Worker k) → IsSound laws (started w)
  unfolding lookup
  started-IsSound w = record {
    live = λ fd p h. absurd (not_watched fd p w h);
    once = λ a b p h h'. absurd (not_watched a p w h);
    valid = λ p c e. cc;
  }

  -- From a worker without connections on, let each epoll_wait report distinct descriptors, and let
  -- no event end a connection that is then still watched on its upstream. Then every event that
  -- the loop handles finds its connection, also when an earlier event of the same array has deleted
  -- another connection or accepted a new one.
  pub started-AllSafe :
      (script : List (List (Happening k))) (w : Worker k)
      → AllFair script (started w)
      → AllSafe script (started w)
  started-AllSafe script w f = batches-Safe script (started w) (started-IsSound w) f
