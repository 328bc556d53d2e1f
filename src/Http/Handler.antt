-- ===== src/Http/Handler.antt =====
-- project/http/src/http_handle.cpp with http_defines.h: the response to a request for a file. The
-- file system and the clock are arguments: what open and fstat give for a path, and gmtime.
pub mod ContentType
pub mod Outcomes
use mohican.Common.{
  ℕ, suc, ◌+◌, Bool, true, false, ◌&&◌, ◌||◌, Option, none, some, List, [], ◌∷◌, ◌++◌, length, drop,
  ltb, if◌then◌else◌, ℤ, pos, is_int, Exception, prot_version_exception, method_exception,
  wrong_file_type, Result, ok, throw, undefined, bind,
}
use mohican.Text.{Text, codes, text_eq, rfind, substr, sub_size, to_string}
use mohican.Http.Headers.{Headers, lookup, insert}
use mohican.Http.FileTypes.{types}
use mohican.Http.Date.{Tm, get_date}
use mohican.Http.Request.{HttpRequest}
use mohican.Http.Response.{HttpResponse, make_response}

-- open(path, O_RDONLY) and fstat of what it opened
pub data FileStatus : Type 0 where
  not_opened : FileStatus
  not_stated : FileStatus
  st_size : ℕ → FileStatus

abbrev pub FileSystem : Type 0
FileSystem = Text → FileStatus

abbrev pub no_root : Text
no_root = codes "no root"

-- ext_pos < slash_pos && slash_pos != npos, for an ext_pos that is not npos
abbrev pub is_in_directory : ℕ → Option ℕ → Bool
is_in_directory ext_pos none = false
is_in_directory ext_pos (some slash_pos) = ltb ext_pos slash_pos

abbrev pub extension_at : Option ℕ → Option ℕ → Option ℕ
extension_at none slash_pos = none
extension_at (some ext_pos) slash_pos =
    if is_in_directory ext_pos slash_pos then none else some ext_pos

-- `ext_pos` behind that test
unfoldable pub extension_pos : Text → Option ℕ
extension_pos url = extension_at (rfind url b'.') (rfind url b'/')

abbrev pub type_of : Option Text → Result Text
type_of none = throw (wrong_file_type "Unsupported file type")
type_of (some content_type) = ok content_type

-- types.find("txt")->second
abbrev pub text_type : Text
text_type = codes "text/plain"

unfoldable pub get_content_type : Text → Result Text
unfolding extension_pos
get_content_type url = elim (extension_pos url) [
  | none ↦ ok text_type
  | some ext_pos ↦
      bind (substr url (ext_pos + 1) (sub_size (length url) (ext_pos + 1)))
        λ ext. type_of (lookup ext types)
]

pub record Answer : Type 0 where
  pub status : ℕ
  pub message : Text
  pub headers : Headers

abbrev base_headers : Headers
base_headers = (codes "Server", codes "mohican") ∷ []

abbrev pub not_found : Answer
not_found = record { status = 404; message = codes "not found"; headers = base_headers }

abbrev unsupported : Answer
unsupported = record {
  status = 415;
  message = codes "Unsupported Media Type";
  headers = base_headers;
}

-- The try block and its handler of WrongFileType.
unfoldable pub file_answer : ℕ → Result Text → Result Answer
unfolding to_string insert
file_answer size (ok content_type) = ok (record {
  status = 200;
  message = codes "OK";
  headers = insert (codes "Connection") (codes "Close") (
      insert (codes "Content-Length") (to_string (pos size))
        (insert (codes "Content-Type") content_type base_headers));
})
file_answer size (throw (wrong_file_type what)) = ok unsupported
file_answer size (throw e) = throw e
file_answer size undefined = undefined

unfoldable pub opened_answer : Text → FileStatus → Result Answer
unfolding file_answer
opened_answer url not_opened = ok not_found
opened_answer url not_stated = ok not_found
opened_answer url (st_size size) = file_answer size (get_content_type url)

-- `request.get_url() = DEFAULT_URL` assigns to a copy: `request` is const, so the url stays.
unfoldable pub answer : FileSystem → HttpRequest → Text → Result Answer
answer files request root =
    if text_eq root no_root
    then ok not_found
    else if text_eq request.method (codes "GET") || text_eq request.method (codes "HEAD")
    then opened_answer request.url (files (root ++ request.url))
    else throw (method_exception "Wrong method")

unfoldable pub finish : Tm → ℤ → ℤ → Answer → HttpResponse
unfolding insert make_response
finish tm major minor a =
    make_response
      (insert (codes "Connection") (codes "Close") (insert (codes "Date") (get_date tm) a.headers))
      major minor a.status a.message

unfoldable pub handle_version : FileSystem → Tm → HttpRequest → Text → ℤ → ℤ → Result HttpResponse
handle_version files tm request root major minor =
    if is_int major 1 && (is_int minor 0 || is_int minor 1)
    then bind (answer files request root) (λ a. ok (finish tm major minor a))
    else throw (prot_version_exception "Wrong protocol version")

-- A version that was never read is an indeterminate value.
abbrev pub with_version : Option ℤ → Option ℤ → (ℤ → ℤ → Result HttpResponse) → Result HttpResponse
with_version none minor f = undefined
with_version (some major) none f = undefined
with_version (some major) (some minor) f = f major minor

unfoldable pub http_handler : FileSystem → Tm → HttpRequest → Text → Result HttpResponse
http_handler files tm request root =
    with_version request.version_major request.version_minor (handle_version files tm request root)
