-- ===== src/Worker/Process/Step/Batch.antt =====
-- worker_process.cpp: every event of one epoll_wait finds its connection, also when an earlier event
-- of the same array has ended another one.
use mohican.Common.{
  ℕ, ◌≡◌, ◌≢◌, sym, inl, inr, Bool, false, All, some, Bool-cases, List, [], ◌∷◌, if◌then◌else◌,
  Result, ok, undefined, ◌>>=◌, throw, return, then_do,
}
use mathlib.Core.Path.{subst}
use mohican.Common.Table.{lookup}
use mohican.Worker.Process.{
  Data, of_fd, of_ptr, Clients, Worker, Signal, sighup, sigint, sigpoll, Turn, Event, signalled,
  reported,
}
use mohican.Worker.Process.Step.{deliver, is_stopping, handle_event, handle_events}
use mohican.Worker.Process.Step.Sound.{IsLawful, IsSound}
use mohican.Worker.Process.Step.Events.{Releases, handle_event-IsSound}
use mohican.Worker.Process.Step.Others.{Holds, IsOther, handle_event-Keeps, deliver-Holds}

-- The addresses in the events.
abbrev pub pointers : {k : Clients} → List (Event k) → List ℕ
pointers [] = []
pointers (signalled s ∷ events) = pointers events
pointers (reported (of_fd fd) turn ∷ events) = pointers events
pointers (reported (of_ptr p) turn ∷ events) = p ∷ pointers events

abbrev pub IsDistinct : List ℕ → Type 0
IsDistinct [] = Unit
IsDistinct (x ∷ xs) = All (λ y. x ≢ y) xs × IsDistinct xs

module _ {k : Clients} (laws : IsLawful k) where
  -- The worker behind one event, which is skipped when the worker stops.
  abbrev if_going : Bool → Data → Turn k → Worker k → Worker k
  if_going b d turn w = ((if b then return tt else handle_event k d turn) w).1

  abbrev pub next : Data → Turn k → Worker k → Worker k
  next d turn w = if_going (is_stopping k w) d turn w

  abbrev pub Found : Data → Worker k → Type 0
  Found (of_fd fd) w = Unit
  Found (of_ptr p) w = (c : k.Client) × (lookup p w.clients ≡ some c)

  -- Each event that is handled finds its object.
  abbrev pub Safe : List (Event k) → Worker k → Type 0
  Safe [] w = Unit
  Safe (signalled s ∷ events) w = Safe events (deliver k s w)
  Safe (reported d turn ∷ events) w = Found d w × Safe events (next d turn w)

  -- The condition on each event that is handled.
  abbrev pub Fair : List (Event k) → Worker k → Type 0
  Fair [] w = Unit
  Fair (signalled s ∷ events) w = Fair events (deliver k s w)
  Fair (reported d turn ∷ events) w =
      (is_stopping k w ≡ false → Releases laws d turn w) × Fair events (next d turn w)

  abbrev pub Lives : Worker k → ℕ → Type 0
  Lives w q = (c : k.Client) × Holds q c w

  deliver-IsSound : (s : Signal) (w : Worker k) → IsSound laws w → IsSound laws (deliver k s w)
  unfolding deliver
  deliver-IsSound sighup w h = record { live = h.live; once = h.once; valid = h.valid }
  deliver-IsSound sigint w h = record { live = h.live; once = h.once; valid = h.valid }
  deliver-IsSound sigpoll w h = record { live = h.live; once = h.once; valid = h.valid }

  next-IsSound :
      (d : Data) (turn : Turn k) (w : Worker k)
      → IsSound laws w
      → (is_stopping k w ≡ false → Releases laws d turn w)
      → IsSound laws (next d turn w)
  unfolding return
  next-IsSound d turn w s h = elim (Bool-cases (is_stopping k w)) [
    | inl e ↦ subst (λ b. IsSound laws (if_going b d turn w)) (sym e) s
    | inr e ↦
        subst (λ b. IsSound laws (if_going b d turn w)) (sym e)
          (handle_event-IsSound laws d turn w s (h e))
  ]

  next-Lives :
      (d : Data) (turn : Turn k) (q : ℕ) (w : Worker k)
      → IsOther q d
      → Lives w q
      → Lives (next d turn w) q
  unfolding return
  next-Lives d turn q w n (c, h) = elim (Bool-cases (is_stopping k w)) [
    | inl e ↦ subst (λ b. Lives (if_going b d turn w) q) (sym e) (c, h)
    | inr e ↦
        subst (λ b. Lives (if_going b d turn w) q) (sym e)
          (c, (handle_event-Keeps q c d turn n).at w h)
  ]

  All-map :
      {P Q R : ℕ → Type 0} (xs : List ℕ)
      → ((x : ℕ) → P x → Q x → R x)
      → All P xs
      → All Q xs
      → All R xs
  All-map [] f h h' = tt
  All-map (x ∷ xs) f h h' = (f x h.0 h'.0, All-map xs f h.1 h'.1)

  All-same : {P Q : ℕ → Type 0} (xs : List ℕ) → ((x : ℕ) → P x → Q x) → All P xs → All Q xs
  All-same xs f h = All-map xs (λ x p _. f x p) h h

  pub handle_events-Safe :
      (events : List (Event k)) (w : Worker k)
      → IsSound laws w
      → All (Lives w) (pointers events)
      → IsDistinct (pointers events)
      → Fair events w
      → Safe events w
  handle_events-Safe [] w s l d f = tt
  handle_events-Safe (signalled x ∷ events) w s l d f =
      handle_events-Safe events (deliver k x w) (deliver-IsSound x w s)
        (All-same (pointers events) (λ q h. (h.0, deliver-Holds q h.0 x w h.1)) l) d f
  handle_events-Safe (reported (of_fd fd) turn ∷ events) w s l d f =
      let s' = next-IsSound (of_fd fd) turn w s f.0 in
      let l' = All-same (pointers events) (λ q h. next-Lives (of_fd fd) turn q w tt h) l in
      (tt, handle_events-Safe events (next (of_fd fd) turn w) s' l' d f.1)
  handle_events-Safe (reported (of_ptr p) turn ∷ events) w s l d f =
      let s' = next-IsSound (of_ptr p) turn w s f.0 in
      let l' = All-map (pointers events) (λ q n h. next-Lives (of_ptr p) turn q w n h) d.0 l.1 in
      ((l.0.0, l.0.1.0), handle_events-Safe events (next (of_ptr p) turn w) s' l' d.1 f.1)

  -- The state behind the loop, and behind the next iteration.
  handle_events-next :
      (d : Data) (turn : Turn k) (events : List (Event k)) (w : Worker k)
      → IsSound laws (next d turn w)
      → IsSound laws (handle_events k events (next d turn w)).1
      → IsSound laws (handle_events k (reported d turn ∷ events) w).1
  unfolding handle_events ◌>>=◌
  handle_events-next d turn events w s h =
      go ((if is_stopping k w then return tt else handle_event k d turn) w).0 s h
    where
      go :
          (r : Result (Unit {0}))
          → IsSound laws (next d turn w)
          → IsSound laws (handle_events k events (next d turn w)).1
          → IsSound laws (then_do (λ done. handle_events k events) (r, next d turn w)).1
      go (ok done) s h = h
      go (throw e) s h = s
      go undefined s h = s

  pub handle_events-IsSound :
      (events : List (Event k)) (w : Worker k)
      → IsSound laws w
      → Fair events w
      → IsSound laws (handle_events k events w).1
  unfolding handle_events ◌>>=◌ return
  handle_events-IsSound [] w s f = s
  handle_events-IsSound (signalled x ∷ events) w s f =
      handle_events-IsSound events (deliver k x w) (deliver-IsSound x w s) f
  handle_events-IsSound (reported d turn ∷ events) w s f =
      let s' = next-IsSound d turn w s f.0 in
      handle_events-next d turn events w s' (handle_events-IsSound events (next d turn w) s' f.1)
