-- ===== src/Worker/Connection/Send/Laws.antt =====
-- client_connection.cpp: what send_header, send_file and send_body put on a socket.
use mathlib.Core.List.{append_assoc}
use mohican.Common.{
  ℕ, suc, ◌+◌, ◌≡◌, ◌<◌, ◌^◌, ◌==◌, refl, ap, ◌∙◌, Bool, true, false, List, [], ◌∷◌, ◌++◌, length,
  take_all, ok, arith, length-append,
}
use mohican.Text.{Text, sub_size, At, At-next, char_at-At, length-At}
use mohican.Http.Request.{crlf}
use mohican.Worker.Os.{Written, wrote}
use mohican.Worker.Connection.Send.{done, Sending, finish_header, write_header}

-- Writes that each take a byte or more, and what comes behind them.
abbrev pub taken : List ℕ → List Written → List Written
taken [] rest = rest
taken (k ∷ ks) rest = wrote (suc k) ∷ taken ks rest

at_last_byte : (l pos : ℕ) → l ≡ pos + 2 → l < 2 ^ 64 → (pos + 1 == sub_size l 1) ≡ true
unfolding sub_size
at_last_byte l pos e h = ground arith

before_last_byte :
    (l pos n : ℕ) → l ≡ pos + n → 2 < n → l < 2 ^ 64 → (pos + 1 == sub_size l 1) ≡ false
unfolding sub_size
before_last_byte l pos n e k h = ground arith

length-last : (text : Text) (d : ℕ) → length (text ++ d ∷ []) ≡ length text + 1
length-last text d = length-append text (d ∷ [])

-- From the byte at `pos` on, if the socket takes a byte or more at each write and two for the line
-- break, all bytes but the last go out and a line break instead of the last, and the string is
-- cleared. The string has fewer than 2 ^ 64 bytes and two or more from `pos` on.
pub write_header-At :
    (str : Text) (pos c : ℕ) (text : Text) (d : ℕ) (ks : List ℕ) (k : ℕ) (n : ℕ)
    (rest : List Written) (out : Text) (moved : Bool)
    → At str pos (c ∷ (text ++ d ∷ []))
    → length str < 2 ^ 64
    → length ks ≡ length text
    → (s : Sending) × (write_header str pos
          (wrote (suc k) ∷ taken ks (wrote (suc (suc n)) ∷ rest))
          out
          moved
        ≡ ok s)
      × (s.end ≡ done)
      × (s.str ≡ [])
      × (s.unused ≡ rest)
      × (s.out ≡ out ++ ((c ∷ text) ++ crlf))
unfolding write_header finish_header
write_header-At str pos c [] d [] k n rest out moved a b e =
    let last = at_last_byte (length str) pos (length-At (c ∷ d ∷ []) a) b in
    let whole = take_all (suc (suc n)) crlf (omega arith) in
    let runs : write_header str pos (wrote (suc k) ∷ wrote (suc (suc n)) ∷ rest) out moved
        ≡ ok (finish_header (pos + 1) (wrote (suc (suc n)) ∷ rest) (out ++ c ∷ []) moved) =
      rw (write_header, char_at-At c (d ∷ []) a, last) refl in
    (
      _,
      runs,
      refl,
      refl,
      refl,
      ap (λ t. (out ++ c ∷ []) ++ t) whole ∙ append_assoc out (c ∷ []) crlf,
    )
write_header-At str pos c [] d (k' ∷ ks) k n rest out moved a b e = absurd (omega (arith, e))
write_header-At str pos c (c' ∷ text) d [] k n rest out moved a b e = absurd (omega (arith, e))
write_header-At str pos c (c' ∷ text) d (k' ∷ ks) k n rest out moved a b e =
    let tail = c' ∷ (text ++ d ∷ []) in
    let go_on =
      before_last_byte (length str) pos (suc (length tail)) (length-At (c ∷ tail) a)
        (omega (arith, length-last text d)) b in
    let (s, runs, is_done, cleared, left, sent) =
      write_header-At str (pos + 1) c' text d ks k' n rest (out ++ c ∷ []) true (At-next c tail a) b
        (omega (arith, e)) in
    let step : write_header str pos (wrote (suc k) ∷ taken (k' ∷ ks) (wrote (suc (suc n)) ∷ rest))
          out moved
        ≡ write_header str (pos + 1) (taken (k' ∷ ks) (wrote (suc (suc n)) ∷ rest)) (out ++ c ∷ [])
            true =
      rw (write_header, char_at-At c tail a, go_on) refl in
    (s, step ∙ runs, is_done, cleared, left, sent ∙ append_assoc out (c ∷ []) ((c' ∷ text) ++ crlf))
