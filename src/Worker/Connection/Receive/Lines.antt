-- ===== src/Worker/Connection/Receive/Lines.antt =====
-- client_connection.cpp: get_request cuts what arrives into lines and gives them to add_line.
use mathlib.Core.List.{append_assoc}
use mohican.Common.{
  ℕ, ◌+◌, ◌≡◌, ◌≢◌, ◌<◌, refl, sym, ap, ◌∙◌, Bool, true, List, [], ◌∷◌, ◌++◌, length, All, Result,
  ok, throw, undefined, Method, then_do, ◌>>=◌, arith, length-append,
}
use mohican.Text.{Text, Lacks}
use mohican.Http.Request.{HttpRequest, add_line, add_lines}
use mohican.Http.Request.RoundTrip.{concat}
use mohican.Worker.Os.{Received, byte}
use mohican.Worker.Connection.Receive.{read_lines}

-- The bytes of a text arrive, and then the rest.
abbrev pub bytes : Text → List Received → List Received
bytes [] rest = rest
bytes (c ∷ cs) rest = byte c ∷ bytes cs rest

-- A line feed stands at the end alone, and something stands before it.
pub record IsLine (line : Text) : Type 0 where
  pub body : Text
  pub form : line ≡ body ++ b'\n' ∷ []
  pub one_line : Lacks b'\n' body
  pub not_empty : 0 < length body

module _ {M : Type 0} (add_line : Text → Method M (Unit {0})) where
  read_lines-other :
      (c : ℕ) (tape : List Received) (line : Text) (m : M) (moved : Bool)
      → c ≢ b'\n'
      → read_lines add_line (byte c ∷ tape) line m moved
        ≡ read_lines add_line tape (line ++ c ∷ []) m true
  unfolding read_lines
  read_lines-other c tape line m moved h = ground arith

  read_lines-line_feed :
      (tape : List Received) (line : Text) (m : M) (moved : Bool)
      → 0 < length line
      → (add_line (line ++ b'\n' ∷ []) m).0 ≡ ok tt
      → read_lines add_line (byte b'\n' ∷ tape) line m moved
        ≡ read_lines add_line tape [] (add_line (line ++ b'\n' ∷ []) m).1 true
  unfolding read_lines
  read_lines-line_feed tape line m moved h e = ground (arith, length-append line (b'\n' ∷ []))

  read_lines-line :
      (body : Text) (tape : List Received) (line full : Text) (m : M) (moved : Bool)
      → full ≡ line ++ (body ++ b'\n' ∷ [])
      → Lacks b'\n' body
      → 0 < length line + length body
      → (add_line full m).0 ≡ ok tt
      → read_lines add_line (bytes (body ++ b'\n' ∷ []) tape) line m moved
        ≡ read_lines add_line tape [] (add_line full m).1 true
  read_lines-line [] tape line full m moved f h k e =
      rw f (read_lines-line_feed tape line m moved (omega (arith, k)) (rw f at e))
  read_lines-line (c ∷ cs) tape line full m moved f h k e =
      let more = f ∙ sym (append_assoc line (c ∷ []) (cs ++ b'\n' ∷ [])) in
      let longer : 0 < length (line ++ c ∷ []) + length cs =
        omega (arith, length-append line (c ∷ [])) in
      read_lines-other c _ line m moved h.0
      ∙ read_lines-line cs tape (line ++ c ∷ []) full m true more h.1 longer e

  read_lines-IsLine :
      (line : Text) (tape : List Received) (m : M) (moved : Bool) (h : IsLine line)
      → (add_line line m).0 ≡ ok tt
      → read_lines add_line (bytes line tape) [] m moved
        ≡ read_lines add_line tape [] (add_line line m).1 true
  read_lines-IsLine line tape m moved h e =
      ap (λ t. read_lines add_line (bytes t tape) [] m moved) h.form
      ∙ read_lines-line h.body tape [] line m moved h.form h.one_line (omega (arith, h.not_empty)) e

-- The bytes of one line more.
bytes-append :
    (xs ys : Text) (rest : List Received) → bytes (xs ++ ys) rest ≡ bytes xs (bytes ys rest)
bytes-append [] ys rest = refl
bytes-append (x ∷ xs) ys rest = ap (λ t. byte x ∷ t) (bytes-append xs ys rest)

-- A chain that ended well: its first call did.
then_do-eq-ok :
    {S A B : Type 0} (f : A → Method S B) (p : Result A × S) {b : B} {s : S}
    → then_do f p ≡ (ok b, s)
    → (a : A) × (p.0 ≡ ok a) × (f a p.1 ≡ (ok b, s))
then_do-eq-ok f (ok a, t) h = (a, refl, h)
then_do-eq-ok f (throw e, t) h = cc
then_do-eq-ok f (undefined, t) h = cc

-- The same for any number of lines, once a byte has been read.
read_lines-more :
    (lines : List Text) (tape : List Received) (m m' : HttpRequest)
    → All IsLine lines
    → add_lines lines m ≡ (ok tt, m')
    → read_lines add_line (bytes (concat lines) tape) [] m true
      ≡ read_lines add_line tape [] m' true
unfolding add_lines ◌>>=◌
read_lines-more [] tape m m' h e = ap (λ p. read_lines add_line tape [] p.1 true) e
read_lines-more (line ∷ lines) tape m m' h e =
    let (done, e0, e1) = then_do-eq-ok (λ d. add_lines lines) (add_line line m) e in
    ap (λ t. read_lines add_line t [] m true) (bytes-append line (concat lines) tape)
    ∙ read_lines-IsLine add_line line (bytes (concat lines) tape) m true h.0 e0
    ∙ read_lines-more lines tape (add_line line m).1 m' h.1 e1

-- Lines that add_line accepts one after the other are read from their bytes, and nothing is left.
pub read_lines-lines :
    (line : Text) (lines : List Text) (tape : List Received) (m m' : HttpRequest) (moved : Bool)
    → All IsLine (line ∷ lines)
    → add_lines (line ∷ lines) m ≡ (ok tt, m')
    → read_lines add_line (bytes (concat (line ∷ lines)) tape) [] m moved
      ≡ read_lines add_line tape [] m' true
unfolding add_lines ◌>>=◌
read_lines-lines line lines tape m m' moved h e =
    let (done, e0, e1) = then_do-eq-ok (λ d. add_lines lines) (add_line line m) e in
    let one =
      ap (λ t. read_lines add_line t [] m moved) (bytes-append line (concat lines) tape)
      ∙ read_lines-IsLine add_line line (bytes (concat lines) tape) m moved h.0 e0 in
    one ∙ read_lines-more lines tape (add_line line m).1 m' h.1 e1
