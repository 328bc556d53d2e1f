-- ===== src/Worker/Connection/SendFile/Chunks.antt =====
-- client_connection.cpp: what send_file puts on the socket of the client.
use mathlib.Core.List.{append_assoc, append-nil}
use mohican.Common.{
  ℕ, zero, suc, ◌+◌, ◌*◌, ◌≡◌, ◌≤◌, ◌<◌, refl, sym, ap, ◌∙◌, Bool, true, false, List, [], ◌∷◌, ◌++◌,
  length, take, take_all, drop, arith, length-drop, length-take, take-drop,
}
use mohican.Text.{Text}
use mohican.Worker.Os.{Written, wrote, write_failed}
use mohican.Worker.Connection.SendFile.{write_file}

-- Writes that each take a whole chunk of 100 bytes.
abbrev pub takes_chunks : List ℕ → List Written → List Written
takes_chunks [] rest = rest
takes_chunks (k ∷ ks) rest = wrote (suc (99 + k)) ∷ takes_chunks ks rest

chunk :
    (k : ℕ) (out content : Text)
    → (out ++ take (suc (99 + k)) (take 100 content)) ++ drop 100 content ≡ out ++ content
chunk k out content =
    let whole =
      take_all (suc (99 + k)) (take 100 content) (omega (arith, length-take 100 content)) in
    append_assoc out _ (drop 100 content)
    ∙ ap (λ t. out ++ t) (ap (λ t. t ++ drop 100 content) whole ∙ take-drop 100 content)

-- A file for whose chunks of 100 bytes the socket has room one by one goes out whole behind what
-- was sent before, and its end is found.
pub write_file-chunks :
    (ks : List ℕ) (rest : List Written) (content out : Text) (once moved : Bool)
    → length content ≤ 100 * length ks
    → ((write_file (takes_chunks ks rest) content out once moved).out ≡ out ++ content)
      × ((write_file (takes_chunks ks rest) content out once moved).at_end ≡ true)
unfolding write_file
write_file-chunks ks rest [] out once moved h = (sym (append-nil out), refl)
write_file-chunks [] rest (c ∷ cs) out once moved h = absurd (omega (arith, h))
write_file-chunks (k ∷ ks) rest (c ∷ cs) out once moved h =
    let (sent, ended) =
      write_file-chunks ks rest (drop 100 (c ∷ cs)) (out ++ take (suc (99 + k)) (take 100 (c ∷ cs)))
        true true (omega (arith, h, length-drop 100 (c ∷ cs))) in
    (sent ∙ chunk k out (c ∷ cs), ended)

once_written :
    (tape : List Written) (content out : Text) (moved : Bool)
    → (write_file tape content out true moved).wrote_once ≡ true
unfolding write_file
once_written tape [] out moved = refl
once_written [] (c ∷ cs) out moved = refl
once_written (write_failed ∷ tape) (c ∷ cs) out moved = refl
once_written (wrote zero ∷ tape) (c ∷ cs) out moved = refl
once_written (wrote (suc n) ∷ tape) (c ∷ cs) out moved =
    once_written tape (drop 100 (c ∷ cs)) _ true

-- A file that is not empty makes the loop write.
pub write_file-wrote_once :
    (ks : List ℕ) (rest : List Written) (content out : Text)
    → 0 < length content
    → length content ≤ 100 * length ks
    → (write_file (takes_chunks ks rest) content out false false).wrote_once ≡ true
unfolding write_file
write_file-wrote_once ks rest [] out h k = absurd (omega (arith, h))
write_file-wrote_once [] rest (c ∷ cs) out h k = absurd (omega (arith, k))
write_file-wrote_once (n ∷ ks) rest (c ∷ cs) out h k =
    once_written (takes_chunks ks rest) (drop 100 (c ∷ cs)) _ true

-- A write of the file that fails loses the chunk that was read for it: when the next event goes on
-- with the file and the socket takes all of it, the first 100 bytes were never sent.
pub write_file-write_failed :
    (tape : List Written) (ks : List ℕ) (rest : List Written) (content out : Text)
    (once moved once' moved' : Bool)
    → length content ≤ 100 * length ks
    → (let first = write_file (write_failed ∷ tape) content out once moved in
        (write_file (takes_chunks ks rest) first.rest first.out once' moved').out)
      ≡ out ++ drop 100 content
unfolding write_file
write_file-write_failed tape ks rest [] out once moved once' moved' h = sym (append-nil out)
write_file-write_failed tape ks rest (c ∷ cs) out once moved once' moved' h =
    (write_file-chunks ks rest (drop 100 (c ∷ cs)) out once' moved'
      (omega (arith, h, length-drop 100 (c ∷ cs)))).0
