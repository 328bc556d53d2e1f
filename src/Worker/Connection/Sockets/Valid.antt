-- ===== src/Worker/Connection/Sockets/Valid.antt =====
-- client_connection.cpp: a connection in an early stage has no upstream, after any event.
use mohican.Common.{
  ℕ, ◌≡◌, ◌⊎◌, inl, inr, refl, ap, ◌∙◌, ◌&&◌, ◌==◌, ==_iff, leb, Bool, true, false, Bool-cases,
  Option, none, some, List, [], ◌∷◌, All, Result, ok, throw, undefined, Method, ◌>>=◌, then_do,
  return, Keeps, Keeps-return,
}
use mohican.Text.{Text}
use mohican.Http.Headers.{Headers}
use mohican.Config.Server.{Location}
use mohican.Config.Upstream.{UpstreamSettings}
use mohican.Worker.Connection.Stage.{Stage, number, Status, Connection}
use mohican.Worker.Connection.Block.{Block}
use mohican.Worker.Connection.Proxy.{
  opened, dials, connect_to_upstream, pass_request, begin_proxy, pass_to_proxy_block,
}
use mohican.Worker.Connection.Processing.{
  in_order, at_stage, at_stages, blocks, connection_processing,
}
use mohican.Worker.Connection.Sockets.{On, leaf}
use mohican.Worker.Connection.Sockets.Late.{is_late}
use mohican.Worker.Connection.Sockets.Late as Late
use mohican.Worker.Connection.Sockets.Early.{Idle}
use mohican.Worker.Connection.Sockets.Early as Early

-- The client socket is x, and there is an upstream in the late stages only.
abbrev pub IsValid : Option ℕ → Connection → Type 0
IsValid x c = (c.sock ≡ x) × ((c.proxy_sock ≡ none) ⊎ (is_late c.stage ≡ true))

-- A block that leaves a valid connection, unless it is undefined behaviour.
pub record Stays (x : Option ℕ) {A : Type 0} (m : Method Connection A) : Type 0 where
  pub at : (c : Connection) → IsValid x c → ((m c).0 ≡ undefined) ⊎ IsValid x (m c).1

-- Any connection in a late stage.
abbrev Behind : Option ℕ → Connection → Type 0
Behind x = On λ a b s. (a ≡ x) × (is_late s ≡ true)

late_same : (s t : Stage) → (number t == number s) ≡ true → is_late t ≡ is_late s
unfolding is_late
late_same s t h = ap (leb 7) ((==_iff (number t) (number s)).0 h)

-- connect_to_upstream stores what socket gives, and ends with a Boolean or with a read of an upstream
-- that is not there.
abbrev Connects : Connection → Type 0
Connects c =
    ((connect_to_upstream c).0 ≡ undefined)
    ⊎ ((b : Bool) × (connect_to_upstream c ≡ (ok b, record c { proxy_sock = opened c.os.dial })))

connects : (c : Connection) → Connects c
unfolding connect_to_upstream ◌>>=◌ return
connects c = elim (Bool-cases (c.os.dial.socket_opened && c.os.dial.option_set)) [
  | inl h ↦ at_location h c.location refl
  | inr h ↦ inr (false, rw h refl)
]
  where
    at_upstream :
        (c.os.dial.socket_opened && c.os.dial.option_set) ≡ true
        → (l : Location) → c.location ≡ some l
        → (us : List UpstreamSettings) → l.upstreams ≡ us
        → Connects c
    at_upstream h l e [] e' = inl (rw (h, e, e') refl)
    at_upstream h l e (u ∷ us) e' = inr (dials c.os.dial u.is_ip, rw (h, e, e') refl)

    at_location :
        (c.os.dial.socket_opened && c.os.dial.option_set) ≡ true
        → (o : Option Location) → c.location ≡ o
        → Connects c
    at_location h none e = inl (rw (h, e) refl)
    at_location h (some l) e = at_upstream h l e l.upstreams refl

module _ {x : Option ℕ} where
  from_Idle : (c : Connection) → Idle x c → IsValid x c
  from_Idle c h = (h.0, inl h.1)

  from_Behind : (c : Connection) → Behind x c → IsValid x c
  from_Behind c h = (h.0, inr h.1)

  -- A stage of a valid connection that is early, and one that is late.
  early-Idle : (c : Connection) → IsValid x c → is_late c.stage ≡ false → Idle x c
  early-Idle c (e, inl h) early = (e, h)
  early-Idle c (e, inr h) early = cc

  entered :
      (s : Stage) (block : Block) (c : Connection)
      → ((number c.stage == number s) ≡ true → ((block c).0 ≡ undefined) ⊎ IsValid x (block c).1)
      → IsValid x c
      → ((at_stage s block c).0 ≡ undefined) ⊎ IsValid x (at_stage s block c).1
  unfolding at_stage ◌>>=◌
  entered s block c h v = elim (Bool-cases (number c.stage == number s)) [
    | inl e ↦ rw e (h e)
    | inr e ↦ rw e (inr v)
  ]

  early-Stays :
      (s : Stage) (block : Block)
      → is_late s ≡ false
      → Keeps (Idle x) block
      → Stays x (at_stage s block)
  early-Stays s block early h = record {
    at = λ c v.
        entered s block c
          (λ e.
            inr (from_Idle (block c).1 (h.at c (early-Idle c v (late_same s c.stage e ∙ early)))))
          v;
  }

  late-Stays :
      (s : Stage) (block : Block)
      → is_late s ≡ true
      → Keeps (Behind x) block
      → Stays x (at_stage s block)
  late-Stays s block late h = record {
    at = λ c v.
        entered s block c
          (λ e. inr (from_Behind (block c).1 (h.at c (v.0, late_same s c.stage e ∙ late)))) v;
  }

  earlies-Stays :
      (s t : Stage) (block : Block)
      → is_late s ≡ false
      → is_late t ≡ false
      → Keeps (Idle x) block
      → Stays x (at_stages s t block)
  unfolding at_stages ◌>>=◌
  earlies-Stays s t block early early' h = record {
    at = λ c v. elim (Bool-cases (number c.stage == number s)) [
      | inl e ↦
          rw e
            (inr (from_Idle (block c).1 (h.at c (early-Idle c v (late_same s c.stage e ∙ early)))))
      | inr e ↦ elim (Bool-cases (number c.stage == number t)) [
        | inl e' ↦
            rw (e, e')
              (inr
                (from_Idle (block c).1 (h.at c (early-Idle c v (late_same t c.stage e' ∙ early')))))
        | inr e' ↦ rw (e, e') (inr v)
      ]
    ];
  }

  returned-Stays :
      (k : Method Connection Status) (r : Result (Option Status)) (c : Connection)
      → Stays x k
      → (r ≡ undefined) ⊎ IsValid x c
      → ((then_do
            (λ returned. elim returned as (λ _. Method Connection Status) [
              | none ↦ k
              | some status ↦ return status
            ])
            (r, c)).0
          ≡ undefined)
        ⊎ IsValid x
            (then_do
              (λ returned. elim returned as (λ _. Method Connection Status) [
                | none ↦ k
                | some status ↦ return status
              ])
              (r, c)).1
  unfolding return
  returned-Stays k (ok none) c h (inr v) = h.at c v
  returned-Stays k (ok none) c h (inl e) = cc
  returned-Stays k (ok (some status)) c h (inr v) = inr v
  returned-Stays k (ok (some status)) c h (inl e) = cc
  returned-Stays k (throw e) c h (inr v) = inr v
  returned-Stays k (throw e) c h (inl e') = cc
  returned-Stays k undefined c h v = inl refl

  in_order-Stays : (blocks : List Block) → All (Stays x) blocks → Stays x (in_order blocks)
  unfolding in_order ◌>>=◌ return
  in_order-Stays [] h = record { at = λ c v. inr v }
  in_order-Stays (block ∷ blocks) h = record {
    at = λ c v.
        returned-Stays (in_order blocks) (block c).0 (block c).1 (in_order-Stays blocks h.1)
          (h.0.at c v);
  }

  module _ (each : Headers → Headers) where
    behind_moves :
        (t : Stage)
        → is_late t ≡ true
        → (a b : Option ℕ) (s : Stage) → (a ≡ x) × (is_late s ≡ true)
        → (a ≡ x) × (is_late t ≡ true)
    behind_moves t h a b s (e, late) = (e, h)

    pass_request-Keeps : Keeps (Behind x) (pass_request each)
    pass_request-Keeps = search (leaf, refl) depth 12

    begin_proxy-IsValid :
        (b : Bool) (c : Connection) → c.sock ≡ x → IsValid x (begin_proxy each b c).1
    unfolding ◌>>=◌ is_late number return
    begin_proxy-IsValid true c e =
        let c' = record c { stage = Stage.send_header_to_proxy } in
        from_Behind (pass_request each c').1 (pass_request-Keeps.at c' (e, refl))
    begin_proxy-IsValid false c e = (e, inr refl)

    pass_to_proxy_block-Stays : Stays x (at_stage Stage.pass_to_proxy (pass_to_proxy_block each))
    unfolding ◌>>=◌
    pass_to_proxy_block-Stays = record {
      at = λ c v.
          entered Stage.pass_to_proxy (pass_to_proxy_block each) c
            (λ _. elim (connects c) [
              | inl e ↦ inl (rw e refl)
              | inr (b, e) ↦
                  rw e
                    (inr (begin_proxy-IsValid b (record c { proxy_sock = opened c.os.dial }) v.0))
            ])
            v;
    }

-- A valid connection is valid after any event that is not undefined behaviour, and has the same
-- client socket.
pub connection_processing-Stays :
    {x : Option ℕ} (regex : Text → Text → Result Bool) (each : Headers → Headers)
    → Stays x (connection_processing regex each)
unfolding connection_processing is_late number
connection_processing-Stays {x} regex each =
    let Q : Option ℕ → Option ℕ → Stage → Type 0 = λ a b s. (a ≡ x) × (is_late s ≡ true) in
    let moves = behind_moves {x = x} each in
    let send_header = Late.send_header_to_proxy_block-Keeps Q moves in
    let body_or_not = Late.get_body_or_not_block-Keeps Q moves in
    let to_proxy = Late.send_body_to_proxy_block-Keeps Q moves in
    let from_client = Late.get_body_from_client_block-Keeps Q moves in
    let response = Late.get_response_from_proxy_block-Keeps Q moves each in
    let from_proxy = Late.get_body_from_proxy_block-Keeps Q moves in
    let to_client = Late.send_body_to_client_block-Keeps Q moves in
    let send_response = Late.send_proxy_response_block-Keeps Q moves in
    in_order-Stays _ (
      late-Stays _ _ refl (Keeps-return _),
      (
        early-Stays _ _ refl (Early.get_request_block-Keeps regex),
        (
          earlies-Stays _ _ _ refl refl (Early.respond_block-Keeps each),
          (
            pass_to_proxy_block-Stays each,
            (
              late-Stays _ _ refl send_header,
              (
                late-Stays _ _ refl body_or_not,
                (
                  late-Stays _ _ refl to_proxy,
                  (
                    late-Stays _ _ refl from_client,
                    (
                      late-Stays _ _ refl response,
                      (
                        late-Stays _ _ refl from_proxy,
                        (
                          late-Stays _ _ refl to_client,
                          (
                            late-Stays _ _ refl send_response,
                            (
                              early-Stays _ _ refl Early.send_http_header_block-Keeps,
                              (early-Stays _ _ refl Early.send_file_block-Keeps, tt),
                            ),
                          ),
                        ),
                      ),
                    ),
                  ),
                ),
              ),
            ),
          ),
        ),
      ),
    )
