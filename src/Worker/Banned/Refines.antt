-- ===== src/Worker/Banned/Refines.antt =====
-- worker_process.cpp: is_banned_upstream beside a set of addresses.
use mohican.Common.{
  arith, ◌≡◌, refl, ap, sym, ◌∙◌, inl, inr, Bool, true, false, ◌||◌, List, [], ◌∷◌, ◌++◌,
  if◌then◌else◌, Bool-cases, ℤ, ok, ◌>>=◌,
}
use mohican.Text.{Text, text_eq, text_eq_iff, text_eq_refl}
use mohican.Worker.Banned.{Banned, contains, erase, is_refusal, ban, unban, is_banned_upstream}

-- No address stands in the list twice.
abbrev pub IsDistinct : Banned → Type 0
IsDistinct [] = Unit
IsDistinct (x ∷ xs) = (contains x xs ≡ false) × IsDistinct xs

-- The set that a list of addresses stands for, and the set with one address put in or taken out.
abbrev pub Addresses : Type 0
Addresses = Text → Bool

abbrev pub put : Text → Bool → Addresses → Addresses
put ip b s other = if text_eq ip other then b else s other

text_eq-other : (x y z : Text) → text_eq x z ≡ true → text_eq x y ≡ false → text_eq y z ≡ false
text_eq-other x y z e n = elim (Bool-cases (text_eq y z)) [
  | inl e' ↦
      let same = (text_eq_iff x y).1 ((text_eq_iff x z).0 e ∙ sym ((text_eq_iff y z).0 e')) in
      ground (arith, same)
  | inr e' ↦ e'
]

text_eq_sym : (x y : Text) → text_eq x y ≡ text_eq y x
text_eq_sym x y = elim (Bool-cases (text_eq x y)) [
  | inl e ↦ e ∙ sym ((text_eq_iff y x).1 (sym ((text_eq_iff x y).0 e)))
  | inr e ↦ e ∙ sym (text_eq-other x y x (text_eq_refl x) e)
]

or-eq-false : (a b : Bool) → (a || b) ≡ false → (a ≡ false) × (b ≡ false)
or-eq-false a b h = ground arith

contains-append :
    (x ip : Text) (xs : Banned) → contains x (xs ++ ip ∷ []) ≡ (contains x xs || text_eq ip x)
unfolding contains
contains-append x ip [] = ground arith
contains-append x ip (y ∷ xs) = ground (arith, contains-append x ip xs)

append-IsDistinct :
    (ip : Text) (xs : Banned) → contains ip xs ≡ false → IsDistinct xs → IsDistinct (xs ++ ip ∷ [])
unfolding contains
append-IsDistinct ip [] n h = (refl, tt)
append-IsDistinct ip (y ∷ xs) n h =
    let (n1, n2) = or-eq-false (text_eq y ip) (contains ip xs) n in
    let kept = append-IsDistinct ip xs n2 h.1 in
    (ground (arith, h.0, contains-append y ip xs, text_eq_sym ip y), kept)

contains-erase :
    (x ip : Text) (xs : Banned)
    → IsDistinct xs
    → contains x (erase ip xs) ≡ put ip false (λ y. contains y xs) x
unfolding contains erase
contains-erase x ip [] h = ground arith
contains-erase x ip (y ∷ xs) h = elim (Bool-cases (text_eq y ip)) [
  | inl e ↦ elim (Bool-cases (text_eq ip x)) [
    | inl e' ↦
        let same : y ≡ x = (text_eq_iff y ip).0 e ∙ (text_eq_iff ip x).0 e' in
        ground (arith, e, e', h.0, ap (λ z. contains z xs) same)
    | inr e' ↦ ground (arith, e, e', ap (λ z. text_eq z x) ((text_eq_iff y ip).0 e))
  ]
  | inr e ↦ elim (Bool-cases (text_eq ip x)) [
    | inl e' ↦
        let same = ap (text_eq y) ((text_eq_iff ip x).0 e') in
        ground (arith, e, e', same, contains-erase x ip xs h.1)
    | inr e' ↦ ground (arith, e, e', contains-erase x ip xs h.1)
  ]
]

erase-IsDistinct : (ip : Text) (xs : Banned) → IsDistinct xs → IsDistinct (erase ip xs)
unfolding erase
erase-IsDistinct ip [] h = tt
erase-IsDistinct ip (y ∷ xs) h = elim (Bool-cases (text_eq y ip)) [
  | inl e ↦ rw e h.1
  | inr e ↦ rw e (ground (arith, h.0, contains-erase y ip xs h.1), erase-IsDistinct ip xs h.1)
]

contains-ban :
    (x ip : Text) (xs : Banned) → contains x (ban ip xs) ≡ put ip true (λ y. contains y xs) x
contains-ban x ip xs = elim (Bool-cases (text_eq ip x)) [
  | inl e ↦
      let same = ap (λ z. contains z xs) ((text_eq_iff ip x).0 e) in
      ground (arith, e, same, contains-append x ip xs)
  | inr e ↦ ground (arith, e, contains-append x ip xs)
]

ban-IsDistinct : (ip : Text) (xs : Banned) → IsDistinct xs → IsDistinct (ban ip xs)
ban-IsDistinct ip xs h = elim (Bool-cases (contains ip xs)) [
  | inl e ↦ rw e h
  | inr e ↦ rw e (append-IsDistinct ip xs e h)
]

contains-unban :
    (x ip : Text) (xs : Banned)
    → IsDistinct xs
    → contains x (unban ip xs) ≡ put ip false (λ y. contains y xs) x
contains-unban x ip xs h = elim (Bool-cases (text_eq ip x)) [
  | inl e ↦
      let same = ap (λ z. contains z xs) ((text_eq_iff ip x).0 e) in
      ground (arith, e, same, contains-erase x ip xs h)
  | inr e ↦ ground (arith, e, contains-erase x ip xs h)
]

unban-IsDistinct : (ip : Text) (xs : Banned) → IsDistinct xs → IsDistinct (unban ip xs)
unban-IsDistinct ip xs h = elim (Bool-cases (contains ip xs)) [
  | inl e ↦ rw e (erase-IsDistinct ip xs h)
  | inr e ↦ rw e h
]

-- A call answers with its code, and puts its address into the set or takes it out.
record IsStep (ip : Text) (code : ℤ) (xs : Banned) : Type 0 where
  pub answer : (is_banned_upstream ip code xs).0 ≡ ok (is_refusal code)
  pub distinct : IsDistinct (is_banned_upstream ip code xs).1
  pub set :
      (x : Text)
      → contains x (is_banned_upstream ip code xs).1
        ≡ put ip (is_refusal code) (λ y. contains y xs) x

is_banned_upstream-IsStep : (ip : Text) (code : ℤ) (xs : Banned) → IsDistinct xs → IsStep ip code xs
unfolding is_banned_upstream ◌>>=◌
is_banned_upstream-IsStep ip code xs h = elim (Bool-cases (is_refusal code)) [
  | inl e ↦ record {
    answer = rw e refl;
    distinct = rw e (ban-IsDistinct ip xs h);
    set = λ x. rw e (contains-ban x ip xs);
  }
  | inr e ↦ record {
    answer = rw e refl;
    distinct = rw e (unban-IsDistinct ip xs h);
    set = λ x. rw e (contains-unban x ip xs h);
  }
]

-- The list and the set after calls in a row, each with its address and its code.
abbrev pub call_all : List (Text × ℤ) → Banned → Banned
call_all [] xs = xs
call_all ((ip, code) ∷ calls) xs = call_all calls (is_banned_upstream ip code xs).1

abbrev pub put_all : List (Text × ℤ) → Addresses → Addresses
put_all [] s = s
put_all ((ip, code) ∷ calls) s = put_all calls (put ip (is_refusal code) s)

put_all-congr :
    (calls : List (Text × ℤ)) (s s' : Addresses)
    → ((x : Text) → s x ≡ s' x)
    → (x : Text) → put_all calls s x ≡ put_all calls s' x
put_all-congr [] s s' h x = h x
put_all-congr ((ip, code) ∷ calls) s s' h x =
    put_all-congr calls (put ip (is_refusal code) s) (put ip (is_refusal code) s')
      (λ y. ground (arith, h y)) x

-- A list without an address that stands twice stays one through any calls, and stands for the set
-- that takes each address in or out by the code of its last call; and the next call answers
-- whether its code refuses.
pub call_all-put_all :
    (calls : List (Text × ℤ)) (xs : Banned)
    → IsDistinct xs
    → IsDistinct (call_all calls xs)
      × ((x : Text) → contains x (call_all calls xs) ≡ put_all calls (λ y. contains y xs) x)
      × ((ip : Text) (code : ℤ)
          → (is_banned_upstream ip code (call_all calls xs)).0 ≡ ok (is_refusal code))
call_all-put_all [] xs h =
    (h, λ x. refl, λ ip code. (is_banned_upstream-IsStep ip code xs h).answer)
call_all-put_all ((ip, code) ∷ calls) xs h =
    let step = is_banned_upstream-IsStep ip code xs h in
    let (d, s, a) = call_all-put_all calls (is_banned_upstream ip code xs).1 step.distinct in
    (d, λ x. s x ∙ put_all-congr calls _ _ step.set x, a)
