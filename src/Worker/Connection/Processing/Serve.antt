-- ===== src/Worker/Connection/Processing/Serve.antt =====
-- client_connection.cpp: a request for a file, from its first event to the last byte of the file.
use mohican.Common.{
  ℕ, suc, ◌*◌, ◌^◌, ◌≡◌, ◌≤◌, ◌<◌, refl, ap, ◌∙◌, Bool, true, false, none, some, List, [], ◌∷◌,
  ◌++◌, length, drop, Result, ok, ◌>>=◌,
}
use mohican.Text.{Text, At-start}
use mohican.Http.Headers.{Headers}
use mohican.Http.Request.{crlf}
use mohican.Http.Response as HttpResponse
use mohican.Http.Response.{HttpResponse}
use mohican.Http.Handler.{http_handler}
use mohican.Config.Server.{Location, get_location}
use mohican.Worker.Os.{regular, Written, wrote, file_system}
use mohican.Worker.Connection.Stage.{Stage, number, Status, Connection}
use mohican.Worker.Connection.Receive.{get_request}
use mohican.Worker.Connection.Send.{Sending, gave, done, write_header, send_response_header}
use mohican.Worker.Connection.SendFile.{write_file, send_file}
use mohican.Worker.Connection.Send.Laws.{taken, write_header-At}
use mohican.Worker.Connection.SendFile.Chunks.{
  takes_chunks, write_file-chunks, write_file-wrote_once,
}
use mohican.Worker.Connection.Respond.{
  get_request_block, respond_block, process_location, choose_stage, make_response_header,
  when_stage, open_file, answer_with,
}
use mohican.Worker.Connection.Processing.Chain.{
  in_order-goes, in_order-returns, at_same, at_other, attempt-ok,
}
use mohican.Worker.Connection.Processing.{
  blocks, send_http_header_block, send_file_block, in_order, at_stage, at_stages,
  connection_processing,
}

-- The connection c has read a whole request for a file below the root of the location l, and the
-- handler answers it with the header text ++ d ∷ [].
pub record IsRequestFor (regex : Text → Text → Result Bool) (each : Headers → Headers)
    (c : Connection) (l : Location) (content : Text) (response : HttpResponse) (b : ℕ) (text : Text)
    (d : ℕ) : Type 0 where
  pub located : get_location regex c.server_settings c.request.url ≡ ok l
  pub is_local : l.is_proxy ≡ false
  pub answered : http_handler (file_system c.os) c.os.now c.request l.root ≡ ok response
  pub written : HttpResponse.get_string each response ≡ ok (b ∷ (text ++ d ∷ []))
  pub exists : c.os.files (l.root ++ c.request.url) ≡ regular content
  pub fits : length (b ∷ (text ++ d ∷ [])) < 2 ^ 64
  pub not_empty : 0 < length content
  pub at_start : c.response_pos ≡ 0

module _ (regex : Text → Text → Result Bool) (each : Headers → Headers) (c c1 : Connection)
    (l : Location) (content : Text) (response : HttpResponse) (b : ℕ) (text : Text) (d : ℕ)
    (h : IsRequestFor regex each c1 l content response b text d) where
  -- The connection with its location, with its response, and with the header sent.
  abbrev placed : Connection
  placed = record c1 { location = some l; stage = Stage.root_found }

  abbrev str : Text
  str = b ∷ (text ++ d ∷ [])

  abbrev answered : Connection
  answered = record c1 {
    location = some l;
    stage = Stage.send_http_header_response;
    response = response;
    response_str = str;
    file_fd = regular content;
    line = [];
  }

  get_request_block-root_found :
      get_request c ≡ (ok true, c1) → get_request_block regex c ≡ (ok none, placed)
  unfolding process_location choose_stage ◌>>=◌
  get_request_block-root_found e =
      rw (attempt-ok get_request _ c c1 true e, h.located, h.is_local) refl

  respond_block-answered : respond_block each placed ≡ (ok none, answered)
  unfolding make_response_header when_stage open_file answer_with ◌>>=◌
  respond_block-answered = rw (h.answered, h.written, h.exists) refl

  -- The header sent.
  abbrev headed : Sending → Connection
  headed s = record answered {
    response_str = s.str;
    response_pos = s.pos;
    stage = Stage.send_file;
    os = record (c1.os) { client = gave s.unused s.out c1.os.client };
  }

  send_http_header_block-headed :
      (s : Sending)
      → write_header str 0 c1.os.client.accepting c1.os.client.sent false ≡ ok s
      → s.end ≡ done
      → send_http_header_block answered ≡ (ok none, headed s)
  unfolding send_response_header ◌>>=◌
  send_http_header_block-headed s e k = rw (h.at_start, e, k) refl

  -- The file sent.
  abbrev filed : Sending → Connection
  filed s =
      let f = write_file s.unused content s.out false false in
      record (headed s) {
        file_fd = regular f.rest;
        os = record (c1.os) { client = gave f.unused f.out c1.os.client };
      }

  send_file_block-finished :
      (s : Sending)
      → (write_file s.unused content s.out false false).wrote_once ≡ true
      → (write_file s.unused content s.out false false).at_end ≡ true
      → send_file_block (headed s) ≡ (ok (some Status.connection_finished), filed s)
  unfolding send_file ◌>>=◌
  send_file_block-finished s w e = rw (w, e) refl

  -- The blocks of an event that does all of this.
  events :
      (s : Sending)
      → get_request c ≡ (ok true, c1)
      → c.stage ≡ Stage.get_request
      → send_http_header_block answered ≡ (ok none, headed s)
      → send_file_block (headed s) ≡ (ok (some Status.connection_finished), filed s)
      → connection_processing regex each c ≡ (ok Status.connection_finished, filed s)
  unfolding connection_processing in_order at_stage at_stages ◌>>=◌ number
  events s e at_first header file =
      let all = blocks regex each in
      in_order-goes (at_stage Stage.error_stage _) (drop 1 all) c c
        (at_other Stage.error_stage _ c Stage.get_request at_first refl)
      ∙ in_order-goes (at_stage Stage.get_request (get_request_block regex)) (drop 2 all) c placed
          (at_same Stage.get_request _ c at_first ∙ get_request_block-root_found e)
      ∙ in_order-goes (at_stages Stage.root_found Stage.root_not_found (respond_block each))
          (drop 3 all) placed answered respond_block-answered
      ∙ in_order-goes (at_stage Stage.send_http_header_response send_http_header_block)
          (drop 13 all) answered (headed s) header
      ∙ in_order-returns (at_stage Stage.send_file send_file_block) [] (headed s) (filed s)
          Status.connection_finished file

  -- A connection in the first stage whose event brings a whole request for a file that is not
  -- empty below the root of a local location, and whose socket takes the bytes of the header one
  -- by one, the line break and the file in chunks, is finished in that event: behind what was sent
  -- before, the client has got the header of the response, its last byte replaced by a line break,
  -- and then all of the file.
  pub connection_processing-file :
      (k : ℕ) (ks : List ℕ) (n : ℕ) (ls : List ℕ) (rest : List Written)
      → get_request c ≡ (ok true, c1)
      → c.stage ≡ Stage.get_request
      → c1.os.client.accepting
        ≡ wrote (suc k) ∷ taken ks (wrote (suc (suc n)) ∷ takes_chunks ls rest)
      → length ks ≡ length text
      → length content ≤ 100 * length ls
      → (c' : Connection) × (connection_processing regex each c
          ≡ (ok Status.connection_finished, c'))
        × (c'.os.client.sent ≡ (c1.os.client.sent ++ ((b ∷ text) ++ crlf)) ++ content)
  unfolding connection_processing
  connection_processing-file k ks n ls rest e at_first a el ec =
      let (s, runs, is_done, cleared, left, sent) =
        write_header-At str 0 b text d ks k n (takes_chunks ls rest) c1.os.client.sent false
          (At-start _) h.fits el in
      let (whole, ended) = write_file-chunks ls rest content s.out false false ec in
      let once = write_file-wrote_once ls rest content s.out h.not_empty ec in
      let header =
        send_http_header_block-headed s
          (ap (λ t. write_header str 0 t c1.os.client.sent false) a ∙ runs) is_done in
      let file =
        send_file_block-finished s
          (ap (λ t. (write_file t content s.out false false).wrote_once) left ∙ once)
          (ap (λ t. (write_file t content s.out false false).at_end) left ∙ ended) in
      (
        filed s,
        events s e at_first header file,
        ap (λ t. (write_file t content s.out false false).out) left
            ∙ whole
            ∙ ap (λ t. t ++ content) sent,
      )
