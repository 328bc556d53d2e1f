-- ===== src/Worker/Connection/Processing/Chain.antt =====
-- client_connection.cpp: how the blocks of connection_processing follow one another.
use mohican.Common.{
  ◌≡◌, ap, refl, Bool, true, false, Option, none, some, List, [], ◌∷◌, ◌==◌, ok, Method, ◌>>=◌,
  return, arith, All, Keeps, Keeps-bind, Keeps-get, Keeps-return, if◌then◌else◌,
}
use mohican.Worker.Connection.Stage.{Stage, number, Status, Connection}
use mohican.Worker.Connection.Block.{Block, attempt}
use mohican.Worker.Connection.Processing.{in_order, at_stage, at_stages}

pub in_order-goes :
    (block : Block) (blocks : List Block) (c c' : Connection)
    → block c ≡ (ok none, c')
    → in_order (block ∷ blocks) c ≡ in_order blocks c'
unfolding in_order ◌>>=◌
in_order-goes block blocks c c' e = rw e refl

pub in_order-returns :
    (block : Block) (blocks : List Block) (c c' : Connection) (status : Status)
    → block c ≡ (ok (some status), c')
    → in_order (block ∷ blocks) c ≡ (ok status, c')
unfolding in_order ◌>>=◌
in_order-returns block blocks c c' status e = rw e refl

pub at_same :
    (s : Stage) (block : Block) (c : Connection) → c.stage ≡ s → at_stage s block c ≡ block c
unfolding at_stage ◌>>=◌
at_same s block c e =
    let same : number s == number s ≡ true = ground arith in rw (at_stage, e, same) refl

pub at_other :
    (s : Stage) (block : Block) (c : Connection) (t : Stage)
    → c.stage ≡ t
    → (number t == number s) ≡ false
    → at_stage s block c ≡ (ok none, c)
unfolding at_stage ◌>>=◌
at_other s block c t e h = rw (at_stage, e, h) refl

pub attempt-ok :
    (m handler : Method Connection Bool) (c c' : Connection) (b : Bool)
    → m c ≡ (ok b, c')
    → attempt m handler c ≡ (ok b, c')
unfolding attempt
attempt-ok m handler c c' b e = rw (attempt, ap (λ p. p.0) e, ap (λ p. p.1) e) refl

-- What every block keeps is kept.
module _ {P : Connection → Type 0} where
  if-Keeps : (b : Bool) (block : Block) → Keeps P block → Keeps P (if b then block else return none)
  if-Keeps true block h = h
  if-Keeps false block h = Keeps-return _

  pub at_stage-Keeps : (s : Stage) (block : Block) → Keeps P block → Keeps P (at_stage s block)
  unfolding at_stage
  at_stage-Keeps s block h = Keeps-bind _ _ Keeps-get λ c. if-Keeps _ block h

  pub at_stages-Keeps :
      (s t : Stage) (block : Block) → Keeps P block → Keeps P (at_stages s t block)
  unfolding at_stages
  at_stages-Keeps s t block h = Keeps-bind _ _ Keeps-get λ c. if-Keeps _ block h

  returned-Keeps :
      (k : Method Connection Status) (returned : Option Status)
      → Keeps P k
      → Keeps P (elim returned as (λ x. Method Connection Status) [
        | none ↦ k
        | some status ↦ return status
      ])
  returned-Keeps k none h = h
  returned-Keeps k (some status) h = Keeps-return status

  pub in_order-Keeps : (blocks : List Block) → All (Keeps P) blocks → Keeps P (in_order blocks)
  unfolding in_order
  in_order-Keeps [] h = Keeps-return _
  in_order-Keeps (block ∷ blocks) h =
      Keeps-bind _ _ h.0
        λ returned. returned-Keeps (in_order blocks) returned (in_order-Keeps blocks h.1)
