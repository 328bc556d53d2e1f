-- ===== src/Worker/Connection/Sockets/Once.antt =====
-- client_connection.cpp: the sockets of a connection that has two.
use mohican.Common.{
  ℕ, arith, ◌≡◌, refl, ◌==◌, Bool, true, false, Option, Result, ◌>>=◌, Keeps, Keeps-return,
}
use mohican.Text.{Text}
use mohican.Http.Headers.{Headers}
use mohican.Worker.Connection.Stage.{Stage, number, Connection}
use mohican.Worker.Connection.Block.{Block}
use mohican.Worker.Connection.Processing.{at_stage, at_stages, connection_processing}
use mohican.Worker.Connection.Processing.Chain.{in_order-Keeps, at_stage-Keeps}
use mohican.Worker.Connection.Sockets.{On}
use mohican.Worker.Connection.Sockets.Late.{is_late}
use mohican.Worker.Connection.Sockets.Late as Late

-- A connection with the sockets a and b, and, where it has a second one, in a late stage.
abbrev pub Connected : Option ℕ → Option ℕ → Connection → Type 0
Connected a b = On λ a' b' s. (a' ≡ a) × (b' ≡ b) × (is_late s ≡ true)

late-moves :
    (x y : Option ℕ) (t : Stage)
    → is_late t ≡ true
    → (a b : Option ℕ) (s : Stage) → (a ≡ x) × (b ≡ y) × (is_late s ≡ true)
    → (a ≡ x) × (b ≡ y) × (is_late t ≡ true)
late-moves x y t h a b s (e, e', late) = (e, e', h)

-- No block for an early stage is entered in a late one.
early-absurd : (s t : Stage) → is_late s ≡ false → is_late t ≡ true → (number t == number s) ≡ false
unfolding is_late
early-absurd s t h h' = ground arith

at_early-Keeps :
    {x y : Option ℕ} (s : Stage) (block : Block)
    → is_late s ≡ false
    → Keeps (Connected x y) (at_stage s block)
unfolding at_stage ◌>>=◌
at_early-Keeps s block h = record { at = λ c p. rw (early-absurd s c.stage h p.2) p }

at_earlies-Keeps :
    {x y : Option ℕ} (s t : Stage) (block : Block)
    → is_late s ≡ false
    → is_late t ≡ false
    → Keeps (Connected x y) (at_stages s t block)
unfolding at_stages ◌>>=◌
at_earlies-Keeps s t block h h' = record {
  at = λ c p. rw (early-absurd s c.stage h p.2, early-absurd t c.stage h' p.2) p;
}

module _ (regex : Text → Text → Result Bool) (each : Headers → Headers) where
  -- A connection in a late stage keeps both sockets and stays in the late stages.
  pub Connected-Keeps : {x y : Option ℕ} → Keeps (Connected x y) (connection_processing regex each)
  unfolding connection_processing is_late number
  Connected-Keeps {x} {y} =
      let Q : Option ℕ → Option ℕ → Stage → Type 0 =
        λ a b s. (a ≡ x) × (b ≡ y) × (is_late s ≡ true) in
      let moves = late-moves x y in
      let send_header = Late.send_header_to_proxy_block-Keeps Q moves in
      let body_or_not = Late.get_body_or_not_block-Keeps Q moves in
      let to_proxy = Late.send_body_to_proxy_block-Keeps Q moves in
      let from_client = Late.get_body_from_client_block-Keeps Q moves in
      let response = Late.get_response_from_proxy_block-Keeps Q moves each in
      let from_proxy = Late.get_body_from_proxy_block-Keeps Q moves in
      let to_client = Late.send_body_to_client_block-Keeps Q moves in
      let send_response = Late.send_proxy_response_block-Keeps Q moves in
      in_order-Keeps _ (
        at_stage-Keeps _ _ (Keeps-return _),
        (
          at_early-Keeps _ _ refl,
          (
            at_earlies-Keeps _ _ _ refl refl,
            (
              at_early-Keeps _ _ refl,
              (
                at_stage-Keeps _ _ send_header,
                (
                  at_stage-Keeps _ _ body_or_not,
                  (
                    at_stage-Keeps _ _ to_proxy,
                    (
                      at_stage-Keeps _ _ from_client,
                      (
                        at_stage-Keeps _ _ response,
                        (
                          at_stage-Keeps _ _ from_proxy,
                          (
                            at_stage-Keeps _ _ to_client,
                            (
                              at_stage-Keeps _ _ send_response,
                              (at_early-Keeps _ _ refl, (at_early-Keeps _ _ refl, tt)),
                            ),
                          ),
                        ),
                      ),
                    ),
                  ),
                ),
              ),
            ),
          ),
        ),
      )
