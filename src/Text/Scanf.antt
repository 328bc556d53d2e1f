-- ===== src/Text/Scanf.antt =====
-- sscanf for the formats of the sources: literal bytes, white space and %d.
use mohican.Common.{
  ℕ, none, some, List, [], ◌∷◌, map, ◌==◌, if◌then◌else◌, ℤ, in_int_range, Result, ok, undefined,
  bind,
}
use mohican.Text.Defs.{Text}
use mohican.Text.Numbers.{skip_spaces, scan_int}

-- c_str() as a C function reads it: up to the first zero
unfoldable pub c_str : Text → Text
c_str [] = []
c_str (c ∷ cs) = if c == 0 then [] else c ∷ c_str cs

pub data Directive : Type 0 where
  literal : ℕ → Directive
  white : Directive
  int : Directive

-- The numbers converted before the first directive that fails. A number outside `int` is undefined.
unfoldable pub sscanf : List Directive → Text → Result (List ℤ)
sscanf [] str = ok []
sscanf (literal c ∷ ds) [] = ok []
sscanf (literal c ∷ ds) (x ∷ xs) = if x == c then sscanf ds xs else ok []
sscanf (white ∷ ds) str = sscanf ds (skip_spaces str)
sscanf (int ∷ ds) str = elim (scan_int str) [
  | none ↦ ok []
  | some (i, rest) ↦ if in_int_range i then bind (sscanf ds rest) (λ is. ok (i ∷ is)) else undefined
]

-- A format with no white space and no %d but those written out.
abbrev pub literals : Text → List Directive
literals str = map literal str
