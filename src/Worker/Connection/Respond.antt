-- ===== src/Worker/Connection/Respond.antt =====
-- client_connection.cpp: the blocks that receive a request and answer it from the disk.
-- `regex` is std::regex_match, and `each` the order in which an unordered_map gives its entries.
use mohican.Common.{
  Bool, true, false, Option, none, some, [], ◌++◌, ◌==◌, if◌then◌else◌, Result, ok, throw,
  undefined, Method, ◌>>=◌, ◌>>◌, return, lift, modify, get,
}
use mohican.Text.{Text, codes}
use mohican.Http.Headers.{Headers}
use mohican.Http.Response as HttpResponse
use mohican.Http.Response.{HttpResponse}
use mohican.Http.Handler.{http_handler, no_root}
use mohican.Config.Server.{Location, get_location}
use mohican.Worker.Os.{FileEntry, missing, directory, regular, file_system}
use mohican.Worker.Connection.Stage.{Stage, number, Connection}
use mohican.Worker.Connection.Progress.{set_stage}
use mohican.Worker.Connection.Receive.{get_request}
use mohican.Worker.Connection.Block.{Block, go_on, timeout_error, attempt, stale}

abbrev page_404 : Text
page_404 = codes "public/404.html"

-- *location_
abbrev pub the_location : Option Location → Result Location
the_location none = undefined
the_location (some l) = ok l

abbrev stage_of : Bool → Stage
stage_of true = Stage.pass_to_proxy
stage_of false = Stage.root_found

-- The end of process_location: any exception of get_location means that no root was found.
unfoldable pub choose_stage : Result Location → Method Connection Stage
choose_stage (ok l) = do modify (λ c. record c { location = some l }); return (stage_of l.is_proxy)
choose_stage (throw e) = return Stage.root_not_found
choose_stage undefined = lift undefined

module _ (regex : Text → Text → Result Bool) where
  unfoldable pub process_location : Method Connection Stage
  process_location = do c ← get; choose_stage (get_location regex c.server_settings c.request.url)

  -- `if (is_succeeded) stage = process_location(); else if (is_timeout()) return ...;`
  abbrev pub locate : Bool → Block
  locate true = do stage ← process_location; set_stage stage; go_on
  locate false = timeout_error

  abbrev pub get_request_block : Block
  get_request_block = do
    is_succeeded ← attempt get_request (do set_stage Stage.bad_request; stale)
    locate is_succeeded

-- if (stage == s) { m }
unfoldable pub when_stage : Stage → Method Connection (Unit {0}) → Method Connection (Unit {0})
unfolding number
when_stage s m = do c ← get; if number c.stage == number s then m else return tt

module _ (each : Headers → Headers) where
  -- response_ = http_handler(request_, root); response_str_ = response_.get_string();
  unfoldable pub answer_with : Text → Method Connection (Unit {0})
  answer_with root = do
    c ← get
    response ← lift (http_handler (file_system c.os) c.os.now c.request root)
    modify (λ c. record c { response = response })
    str ← lift (HttpResponse.get_string each response)
    modify (λ c. record c { response_str = str })

  abbrev stage_for : FileEntry → Stage
  stage_for missing = Stage.root_not_found
  stage_for (directory size) = Stage.root_found
  stage_for (regular content) = Stage.root_found

  -- make_response_header behind the test `stage == ROOT_FOUND`
  unfoldable pub open_file : Method Connection (Unit {0})
  open_file = do
    c ← get
    location ← lift (the_location c.location)
    answer_with location.root
    modify (λ c. record c {
      file_fd = c.os.files (location.root ++ c.request.url);
      stage = stage_for (c.os.files (location.root ++ c.request.url));
    })

  -- make_response_header behind the test `stage == ROOT_NOT_FOUND`
  unfoldable pub open_page_404 : Method Connection (Unit {0})
  open_page_404 = do modify (λ c. record c { file_fd = c.os.files page_404 }); answer_with no_root

  unfoldable pub make_response_header : Method Connection (Unit {0})
  make_response_header = do
    when_stage Stage.root_found open_file
    when_stage Stage.root_not_found open_page_404
    modify (λ c. record c { line = [] })

  abbrev pub respond_block : Block
  respond_block = do make_response_header; set_stage Stage.send_http_header_response; go_on
