-- ===== src/Http/Handler/Outcomes.antt =====
-- The outcomes of http_handler.
use mathlib.Core.Path.{subst, sym}
use mohican.Common.{
  String, ℕ, ◌≡◌, refl, ◌≢◌, true, ◌&&◌, ◌||◌, Option, none, some, ◌++◌, arith, ℤ, pos, negsuc,
  bind-eq-ok, is_int, wrong_file_type, Exception, Result, ok, throw, undefined, ◌⊎◌, inl, inr,
  Bool-cases,
}
use mohican.Text.{Text, codes, text_eq, text_eq_iff, to_string}
use mohican.Http.Headers.{lookup, insert, lookup-insert}
use mohican.Http.Date.{Tm, get_date}
use mohican.Http.Request.{HttpRequest}
use mohican.Http.Response.{HttpResponse, make_response}
use mohican.Http.Handler.{
  FileSystem, FileStatus, not_opened, not_stated, st_size, no_root, get_content_type, Answer,
  not_found, file_answer, opened_answer, answer, finish, handle_version, with_version, http_handler,
}

-- The version is HTTP/1.0 or HTTP/1.1.
abbrev pub IsServed : HttpRequest → Type 0
IsServed r =
    (r.version_major ≡ some (pos 1))
    × ((r.version_minor ≡ some (pos 0)) ⊎ (r.version_minor ≡ some (pos 1)))

abbrev pub IsRead : HttpRequest → Type 0
IsRead r = (r.method ≡ codes "GET") ⊎ (r.method ≡ codes "HEAD")

-- What the answer's status says of the files.
pub data Explains (files : FileSystem) (r : HttpRequest) (root : Text) (a : Answer) : Type 0 where
  ok_file :
      (size : ℕ) (content_type : Text)
      → IsRead r
      → files (root ++ r.url) ≡ st_size size
      → get_content_type r.url ≡ ok content_type
      → a.status ≡ 200
      → lookup (codes "Content-Type") a.headers ≡ some content_type
      → lookup (codes "Content-Length") a.headers ≡ some (to_string (pos size))
      → Explains files r root a
  no_file :
      (root ≡ no_root) ⊎ ((size : ℕ) → files (root ++ r.url) ≢ st_size size)
      → a.status ≡ 404
      → lookup (codes "Content-Length") a.headers ≡ none
      → Explains files r root a
  no_type :
      (size : ℕ) (what : String)
      → IsRead r
      → files (root ++ r.url) ≡ st_size size
      → get_content_type r.url ≡ throw (wrong_file_type what)
      → a.status ≡ 415
      → lookup (codes "Content-Length") a.headers ≡ none
      → Explains files r root a

ok-injective : {a b : Answer} → ok a ≡ ok b → a ≡ b
ok-injective h = cc

throw-ne-ok : {A : Type 0} {e : Exception} {a : A} → throw e ≡ ok a → ⊥
throw-ne-ok h = cc

module _ (files : FileSystem) (r : HttpRequest) (root : Text) where
  explain_file :
      (size : ℕ) (content_type : Result Text) {a : Answer}
      → IsRead r
      → files (root ++ r.url) ≡ st_size size
      → get_content_type r.url ≡ content_type
      → file_answer size content_type ≡ ok a
      → Explains files r root a
  unfolding file_answer insert lookup text_eq
  explain_file size (ok content_type) m f c h =
      subst (Explains files r root) (ok-injective h)
        (ok_file size content_type m f c refl refl refl)
  explain_file size (throw (wrong_file_type what)) m f c h =
      subst (Explains files r root) (ok-injective h) (no_type size what m f c refl refl)
  explain_file size (throw e) m f c h = cc
  explain_file size undefined m f c h = cc

  explain_opened :
      (status : FileStatus) {a : Answer}
      → IsRead r
      → files (root ++ r.url) ≡ status
      → opened_answer r.url status ≡ ok a
      → Explains files r root a
  unfolding opened_answer lookup text_eq
  explain_opened not_opened m f h =
      subst (Explains files r root) (ok-injective h) (no_file (inr (λ size e. cc)) refl refl)
  explain_opened not_stated m f h =
      subst (Explains files r root) (ok-injective h) (no_file (inr (λ size e. cc)) refl refl)
  explain_opened (st_size size) m f h = explain_file size (get_content_type r.url) m f refl h

  explain_no_root : {a : Answer} → root ≡ no_root → not_found ≡ a → Explains files r root a
  unfolding lookup text_eq
  explain_no_root e h = subst (Explains files r root) h (no_file (inl e) refl refl)

  -- Every answer has status 200, 404 or 415, for the reason in the files and the table of types
  -- that the status stands for, and the fields that go with it.
  pub answer-Explains : {a : Answer} → answer files r root ≡ ok a → Explains files r root a
  unfolding answer
  answer-Explains {a} h = elim (Bool-cases (text_eq root no_root)) [
    | inl none_given ↦
        explain_no_root ((text_eq_iff root no_root).0 none_given)
          (ok-injective (rw none_given at h))
    | inr given ↦
        elim (Bool-cases (text_eq r.method (codes "GET") || text_eq r.method (codes "HEAD"))) [
          | inl reads ↦
              explain_opened (files (root ++ r.url))
                (ground
                  (arith, text_eq_iff r.method (codes "GET"), text_eq_iff r.method (codes "HEAD")))
                refl (rw (given, reads) at h)
          | inr other ↦ absurd (throw-ne-ok (rw (given, other) at h))
        ]
  ]

-- A response of the handler: its answer, with the version of the request and the common fields.
pub record Replies (files : FileSystem) (tm : Tm) (r : HttpRequest) (root : Text)
    (res : HttpResponse) : Type 0 where
  pub served : IsServed r
  pub found : Answer
  pub explains : Explains files r root found
  pub same_status : res.status ≡ pos found.status
  pub same_major : res.version_major ≡ r.version_major
  pub same_minor : res.version_minor ≡ r.version_minor
  pub closes : lookup (codes "Connection") res.headers ≡ some (codes "Close")
  pub dated : lookup (codes "Date") res.headers ≡ some (get_date tm)
  pub same_type :
      lookup (codes "Content-Type") res.headers ≡ lookup (codes "Content-Type") found.headers
  pub same_length :
      lookup (codes "Content-Length") res.headers ≡ lookup (codes "Content-Length") found.headers

IsServed-versions :
    (r : HttpRequest) (major minor : ℤ)
    → r.version_major ≡ some major
    → r.version_minor ≡ some minor
    → (is_int major 1 && (is_int minor 0 || is_int minor 1)) ≡ true
    → IsServed r
IsServed-versions r (pos m) (pos n) h k v = ground arith
IsServed-versions r (pos m) (negsuc n) h k v = ground arith
IsServed-versions r (negsuc m) minor h k v = cc

response-injective : {a b : HttpResponse} → ok a ≡ ok b → a ≡ b
response-injective h = cc

module _ (files : FileSystem) (tm : Tm) (r : HttpRequest) (root : Text) where
  finish-Replies :
      (major minor : ℤ) {a : Answer}
      → r.version_major ≡ some major
      → r.version_minor ≡ some minor
      → (is_int major 1 && (is_int minor 0 || is_int minor 1)) ≡ true
      → Explains files r root a
      → Replies files tm r root (finish tm major minor a)
  unfolding finish make_response text_eq
  finish-Replies major minor {a} h k v x = record {
    served = IsServed-versions r major minor h k v;
    found = a;
    explains = x;
    same_status = refl;
    same_major = sym h;
    same_minor = sym k;
    closes = simp lookup-insert;
    dated = simp lookup-insert;
    same_type = simp lookup-insert;
    same_length = simp lookup-insert;
  }

  version-Replies :
      (major minor : ℤ) {res : HttpResponse}
      → r.version_major ≡ some major
      → r.version_minor ≡ some minor
      → handle_version files tm r root major minor ≡ ok res
      → Replies files tm r root res
  unfolding handle_version
  version-Replies major minor h k e =
      elim (Bool-cases (is_int major 1 && (is_int minor 0 || is_int minor 1))) [
        | inl v ↦
            let (a, found, done) =
              bind-eq-ok (answer files r root) (λ a. ok (finish tm major minor a)) (rw v at e) in
            subst (Replies files tm r root) (response-injective done)
              (finish-Replies major minor h k v (answer-Explains files r root found))
        | inr v ↦ absurd (throw-ne-ok (rw v at e))
      ]

  -- A response that the handler returns answers a request of version 1.0 or 1.1, has a status that
  -- the files explain and the version of the request, closes the connection and is dated.
  pub http_handler-Replies :
      {res : HttpResponse} → http_handler files tm r root ≡ ok res → Replies files tm r root res
  unfolding http_handler
  http_handler-Replies = by_version r.version_major r.version_minor refl refl
    where
      by_version :
          (major minor : Option ℤ) {res : HttpResponse}
          → r.version_major ≡ major
          → r.version_minor ≡ minor
          → with_version major minor (handle_version files tm r root) ≡ ok res
          → Replies files tm r root res
      by_version none minor h k e = cc
      by_version (some major) none h k e = cc
      by_version (some major) (some minor) h k e = version-Replies major minor h k e
