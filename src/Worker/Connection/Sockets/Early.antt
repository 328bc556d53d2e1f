-- ===== src/Worker/Connection/Sockets/Early.antt =====
-- client_connection.cpp: the blocks of a connection that has no upstream yet.
use mohican.Common.{
  ℕ, ◌≡◌, refl, sym, Bool, true, false, Option, none, Result, ok, throw, undefined, Method, modify,
  Keeps, Keeps-modify, Keeps-return, Keeps-lift,
}
use mathlib.Core.Path.{subst}
use mohican.Text.{Text}
use mohican.Http.Headers.{Headers}
use mohican.Config.Server.{Location}
use mohican.Worker.Connection.Stage.{Stage, Connection}
use mohican.Worker.Connection.Processing.{send_http_header_block, send_file_block}
use mohican.Worker.Connection.Respond.{
  locate, when_stage, get_request_block, respond_block, process_location, choose_stage, answer_with,
  open_file, open_page_404, make_response_header,
}
use mohican.Worker.Connection.Sockets.{On, leaf}
use mohican.Worker.Connection.Sockets as Sockets

-- A connection with the client socket x and without an upstream.
abbrev pub Idle : Option ℕ → Connection → Type 0
Idle x = On λ a b s. (a ≡ x) × (b ≡ none)

module _ {x : Option ℕ} where
  any :
      (f : Connection → Connection)
      → ((c : Connection) → (f c).sock ≡ c.sock)
      → ((c : Connection) → (f c).proxy_sock ≡ c.proxy_sock)
      → Keeps (Idle x) (modify f)
  any f a b =
      Keeps-modify f
        λ c h. (subst (λ y. y ≡ x) (sym (a c)) h.0, subst (λ y. y ≡ none) (sym (b c)) h.1)

  errors : (a b : Option ℕ) (s : Stage) → (a ≡ x) × (b ≡ none) → (a ≡ x) × (b ≡ none)
  errors a b s h = h

  ruleset early = (
    leaf, any, refl, errors, Sockets.if-Keeps, Sockets.is_timeout-Keeps, Sockets.attempt-Keeps,
    Sockets.get_request-Keeps, Sockets.send_response_header-Keeps, Sockets.send_file-Keeps,
  )

  pub send_file_block-Keeps : Keeps (Idle x) send_file_block
  send_file_block-Keeps = search (early) depth 10

  pub send_http_header_block-Keeps : Keeps (Idle x) send_http_header_block
  send_http_header_block-Keeps = search (early) depth 10

  choose_stage-Keeps : (r : Result Location) → Keeps (Idle x) (choose_stage r)
  unfolding choose_stage
  choose_stage-Keeps (ok l) = search (early) depth 8
  choose_stage-Keeps (throw e) = Keeps-return _
  choose_stage-Keeps undefined = Keeps-lift _

  module _ (regex : Text → Text → Result Bool) where
    process_location-Keeps : Keeps (Idle x) (process_location regex)
    unfolding process_location
    process_location-Keeps = search (early, choose_stage-Keeps) depth 8

    locate-Keeps : (b : Bool) → Keeps (Idle x) (locate regex b)
    locate-Keeps true = search (early, process_location-Keeps) depth 8
    locate-Keeps false = search (early) depth 8

    pub get_request_block-Keeps : Keeps (Idle x) (get_request_block regex)
    get_request_block-Keeps = search (early, locate-Keeps) depth 12

  when_stage-Keeps :
      (s : Stage) (m : Method Connection (Unit {0}))
      → Keeps (Idle x) m
      → Keeps (Idle x) (when_stage s m)
  unfolding when_stage
  when_stage-Keeps s m h = search (early) depth 8

  module _ (each : Headers → Headers) where
    answer_with-Keeps : (root : Text) → Keeps (Idle x) (answer_with each root)
    unfolding answer_with
    answer_with-Keeps root = search (early) depth 12

    open_file-Keeps : Keeps (Idle x) (open_file each)
    unfolding open_file
    open_file-Keeps = search (early, answer_with-Keeps) depth 12

    open_page_404-Keeps : Keeps (Idle x) (open_page_404 each)
    unfolding open_page_404
    open_page_404-Keeps = search (early, answer_with-Keeps) depth 12

    make_response_header-Keeps : Keeps (Idle x) (make_response_header each)
    unfolding make_response_header
    make_response_header-Keeps =
        search (early, when_stage-Keeps, open_file-Keeps, open_page_404-Keeps) depth 12

    pub respond_block-Keeps : Keeps (Idle x) (respond_block each)
    respond_block-Keeps = search (early, make_response_header-Keeps) depth 12
