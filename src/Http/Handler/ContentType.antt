-- ===== src/Http/Handler/ContentType.antt =====
-- Which extension decides the content type of a url.
use mathlib.Core.Path.{subst, ap₂}
use mathlib.Core.List.{append-nil}
use native.Mathlib.Decide.{ℕ_discrete}
use mohican.Common.{
  not, ◌&&◌, ◌==◌, if◌then◌else◌, ℕ, ◌+◌, ◌<◌, ◌^◌, ◌≡◌, refl, sym, ap, ◌∙◌, Bool, true, false,
  none, some, [], ◌∷◌, ◌++◌, arith, length, length-append, Result, ok, bind, Option,
}
use mohican.Text.{
  Text, rfind, Lacks, At, At-start, At-skip, At-next, substr-At, rfind-Lacks, rfind-none,
  rfind-append, rfind-lt-length, sub_size, sub_size-add,
}
use mohican.Http.Headers.{lookup}
use mohican.Http.FileTypes.{types}
use mohican.Http.Handler.{extension_at, type_of, text_type, extension_pos, get_content_type}

abbrev no_slash : Text → Bool
no_slash [] = true
no_slash (c ∷ cs) = not (c == b'/') && no_slash cs

-- The part of a url behind its last dot, if no slash follows: a description from left to right,
-- with no positions.
unfoldable pub file_extension : Text → Option Text
file_extension [] = none
file_extension (c ∷ cs) = elim (file_extension cs) [
  | some extension ↦ some extension
  | none ↦ if c == b'.' && no_slash cs then some cs else none
]

-- The last dot or slash of a url.
data LastMark : Text → Type 0 where
  dot : (pre ext : Text) → Lacks b'.' ext → Lacks b'/' ext → LastMark (pre ++ (b'.' ∷ ext))
  slash : (pre name : Text) → Lacks b'.' name → Lacks b'/' name → LastMark (pre ++ (b'/' ∷ name))
  plain : (url : Text) → Lacks b'.' url → Lacks b'/' url → LastMark url

LastMark-cons : (c : ℕ) {url : Text} → LastMark url → LastMark (c ∷ url)
LastMark-cons c (dot pre ext h k) = dot (c ∷ pre) ext h k
LastMark-cons c (slash pre name h k) = slash (c ∷ pre) name h k
LastMark-cons c (plain url h k) = elim (ℕ_discrete c b'.') [
  | yes e ↦ subst (λ b. LastMark (b ∷ url)) (sym e) (dot [] url h k)
  | no n ↦ elim (ℕ_discrete c b'/') [
    | yes e ↦ subst (λ b. LastMark (b ∷ url)) (sym e) (slash [] url h k)
    | no m ↦ plain (c ∷ url) (n, h) (m, k)
  ]
]

last_mark : (url : Text) → LastMark url
last_mark [] = plain [] tt tt
last_mark (c ∷ url) = LastMark-cons c (last_mark url)

no_slash-Lacks : (str : Text) → Lacks b'/' str → no_slash str ≡ true
no_slash-Lacks [] h = refl
no_slash-Lacks (c ∷ str) h = ground (arith, no_slash-Lacks str h.1)

no_slash-append : (pre name : Text) → no_slash (pre ++ (b'/' ∷ name)) ≡ false
no_slash-append [] name = refl
no_slash-append (c ∷ pre) name = ground (arith, no_slash-append pre name)

file_extension-plain : (str : Text) → Lacks b'.' str → file_extension str ≡ none
unfolding file_extension
file_extension-plain [] h = refl
file_extension-plain (c ∷ str) h = ground (arith, file_extension-plain str h.1)

file_extension-dot :
    (pre ext : Text)
    → Lacks b'.' ext
    → Lacks b'/' ext
    → file_extension (pre ++ (b'.' ∷ ext)) ≡ some ext
unfolding file_extension
file_extension-dot [] ext h k = ground (arith, file_extension-plain ext h, no_slash-Lacks ext k)
file_extension-dot (c ∷ pre) ext h k = rw (file_extension-dot pre ext h k)

file_extension-slash :
    (pre name : Text) → Lacks b'.' name → file_extension (pre ++ (b'/' ∷ name)) ≡ none
unfolding file_extension
file_extension-slash [] name h = ground (arith, file_extension-plain name h)
file_extension-slash (c ∷ pre) name h =
    ground (arith, file_extension-slash pre name h, no_slash-append pre name)

-- A dot in front of a slash is no extension, and one behind it is.
extension_at-before :
    (n : ℕ) (ext_pos : Option ℕ)
    → ((i : ℕ) → ext_pos ≡ some i → i < n)
    → extension_at ext_pos (some n) ≡ none
extension_at-before n none h = refl
extension_at-before n (some i) h = ground (arith, h i refl)

extension_at-behind :
    (n : ℕ) (slash_pos : Option ℕ)
    → ((i : ℕ) → slash_pos ≡ some i → i < n)
    → extension_at (some n) slash_pos ≡ some n
extension_at-behind n none h = refl
extension_at-behind n (some i) h = ground (arith, h i refl)

extension_pos-dot :
    (pre ext : Text)
    → Lacks b'.' ext
    → Lacks b'/' ext
    → extension_pos (pre ++ (b'.' ∷ ext)) ≡ some (length pre)
unfolding extension_pos
extension_pos-dot pre ext h k =
    ap₂ extension_at (rfind-Lacks b'.' pre ext h)
      (rfind-append b'/' pre (b'.' ∷ ext) ((λ e. cc), k))
    ∙ extension_at-behind (length pre) (rfind pre b'/') (λ i. rfind-lt-length b'/' pre)

extension_pos-slash :
    (pre name : Text)
    → Lacks b'.' name
    → Lacks b'/' name
    → extension_pos (pre ++ (b'/' ∷ name)) ≡ none
unfolding extension_pos
extension_pos-slash pre name h k =
    ap₂ extension_at (rfind-append b'.' pre (b'/' ∷ name) ((λ e. cc), h))
      (rfind-Lacks b'/' pre name k)
    ∙ extension_at-before (length pre) (rfind pre b'.') (λ i. rfind-lt-length b'.' pre)

extension_pos-plain : (url : Text) → Lacks b'.' url → extension_pos url ≡ none
unfolding extension_pos
extension_pos-plain url h = ap (λ o. extension_at o (rfind url b'/')) (rfind-none b'.' url h)

-- The content type for an extension, or for none.
abbrev pub type_for : Option Text → Result Text
type_for none = ok text_type
type_for (some extension) = type_of (lookup extension types)

get_content_type-none :
    (url : Text) → extension_pos url ≡ none → get_content_type url ≡ ok text_type
unfolding get_content_type
get_content_type-none url e = rw (e, get_content_type)

get_content_type-dot :
    (pre ext : Text)
    → Lacks b'.' ext
    → Lacks b'/' ext
    → length (pre ++ (b'.' ∷ ext)) < 2 ^ 64
    → get_content_type (pre ++ (b'.' ∷ ext)) ≡ type_of (lookup ext types)
unfolding get_content_type
get_content_type-dot pre ext h k small =
    let url = pre ++ (b'.' ∷ ext) in
    let a : At url (0 + length pre + 1) (ext ++ []) =
      rw append-nil (At-next b'.' ext (At-skip pre _ (At-start url))) in
    let start : 0 + length pre + 1 ≡ length pre + 1 = omega arith in
    let size : length url ≡ length pre + 1 + length ext =
      omega (arith, length-append pre (b'.' ∷ ext)) in
    let count : sub_size (length url) (length pre + 1) ≡ length ext =
      ap (λ n. sub_size n (length pre + 1)) size
      ∙ sub_size-add (length pre + 1) (length ext) (omega arith) in
    rw (extension_pos-dot pre ext h k, get_content_type)
      (ap (λ r. bind r (λ e. type_of (lookup e types)))
        (substr-At ext [] _ (subst (λ n. At url n (ext ++ [])) start a) count))

-- A url has the content type of its file extension: the part behind the last dot, if no slash
-- follows that dot. Without an extension it is text/plain, and an extension that the table lacks
-- throws WrongFileType.
pub get_content_type-file_extension :
    (url : Text) → length url < 2 ^ 64 → get_content_type url ≡ type_for (file_extension url)
get_content_type-file_extension url small = by_mark (last_mark url) small
  where
    by_mark :
        {url : Text}
        → LastMark url
        → length url < 2 ^ 64
        → get_content_type url ≡ type_for (file_extension url)
    by_mark (dot pre ext h k) small =
        get_content_type-dot pre ext h k small ∙ ap type_for (sym (file_extension-dot pre ext h k))
    by_mark (slash pre name h k) small =
        get_content_type-none _ (extension_pos-slash pre name h k)
        ∙ ap type_for (sym (file_extension-slash pre name h))
    by_mark (plain url h k) small =
        get_content_type-none _ (extension_pos-plain url h)
        ∙ ap type_for (sym (file_extension-plain url h))
