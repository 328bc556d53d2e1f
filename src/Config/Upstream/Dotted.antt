-- ===== src/Config/Upstream/Dotted.antt =====
-- Which dotted addresses count as IP addresses.
use mathlib.Core.Path.{subst}
use mohican.Common.{
  ℕ, suc, ◌+◌, ◌-◌, ◌<◌, ◌≡◌, refl, ap, Bool, true, false, not, ◌&&◌, none, some, [], ◌∷◌, ◌++◌,
  arith, ltb, if◌then◌else◌, length, All, length-append, pos, ℤ, in_int_range, ok,
}
use mohican.Text.{
  Text, is_digit, char_at, substr, skip_from, skip_from-run, stoi, to_string, to_string-digits,
  to_string-cons, stoi-to_string, At, At-start, At-skip, At-next, substr-At, char_at-At,
  substr-rest, drop-At, length-At,
}
use mohican.Config.Upstream.{is_sub_ip_num, all_digits, check_last, check_ip, make_upstream}

abbrev numeral : ℕ → Text
numeral n = to_string (pos n)

abbrev IsInt : ℕ → Type 0
IsInt n = in_int_range (pos n) ≡ true

numeral_pos : (n : ℕ) → 0 < length (numeral n)
numeral_pos n = let (c, cs, e) = to_string-cons n in omega (arith, ap length e)

-- A number with its dot.
is_sub_ip_num-numeral :
    (n : ℕ) (rest : Text)
    → IsInt n
    → is_sub_ip_num (numeral n ++ (b'.' ∷ rest))
      ≡ ok (if ltb 255 n then none else some (length (numeral n) + 1))
unfolding is_sub_ip_num
is_sub_ip_num-numeral n rest h =
    rw (e1, e2, e3, e4) (ground (arith, length-append (numeral n) (b'.' ∷ rest), numeral_pos n))
  where
    str : Text
    str = numeral n ++ (b'.' ∷ rest)

    a : At str 0 (numeral n ++ (b'.' ∷ rest))
    a = At-start str

    e1 : skip_from is_digit 0 str ≡ 0 + length (numeral n)
    e1 =
        skip_from-run is_digit 0 (numeral n) b'.' rest (to_string-digits n)
          (unfold is_digit in refl)

    e2 : substr str 0 (0 + length (numeral n)) ≡ ok (numeral n)
    e2 = substr-At (numeral n) (b'.' ∷ rest) (0 + length (numeral n)) a (omega arith)

    e3 : stoi (numeral n) ≡ ok (pos n)
    e3 = stoi-to_string (pos n) h

    e4 : char_at str (0 + length (numeral n)) ≡ ok b'.'
    e4 = char_at-At b'.' rest (At-skip (numeral n) (b'.' ∷ rest) a)

all_digits-All : (str : Text) → All (λ c. is_digit c ≡ true) str → all_digits str ≡ true
unfolding all_digits
all_digits-All [] h = refl
all_digits-All (c ∷ cs) h = ground (arith, all_digits-All cs h.1)

module _ (address : Text) where
  check_last-numeral :
      (j n : ℕ) → At address j (numeral n) → IsInt n → check_last address j ≡ ok (not (ltb 255 n))
  unfolding check_last
  check_last-numeral j n a h = rw (
    drop-At (numeral n) a,
    all_digits-All (numeral n) (to_string-digits n),
    substr-rest (numeral n) (length address) a (omega (arith, length-At (numeral n) a)),
    stoi-to_string (pos n) h,
  )

  check_ip-numeral :
      (rounds i n : ℕ) (rest : Text)
      → At address i (numeral n ++ (b'.' ∷ rest))
      → IsInt n
      → check_ip (suc rounds) address i
        ≡ (if ltb 255 n then ok false else check_ip rounds address (i + (length (numeral n) + 1)))
  unfolding check_ip
  check_ip-numeral rounds i n rest a h =
      let whole = substr-rest _ (length address - i) a (omega (arith, length-At _ a)) in
      rw (whole, is_sub_ip_num-numeral n rest h) (ground arith)

  At-dot :
      (i n : ℕ) (rest : Text)
      → At address i (numeral n ++ (b'.' ∷ rest))
      → At address (i + (length (numeral n) + 1)) rest
  At-dot i n rest a =
      let e : i + length (numeral n) + 1 ≡ i + (length (numeral n) + 1) = omega arith in
      subst (λ p. At address p rest) e (At-next b'.' rest (At-skip (numeral n) (b'.' ∷ rest) a))

abbrev pub dotted : ℕ → ℕ → ℕ → ℕ → Text
dotted a b c d = numeral a ++ (b'.' ∷ (numeral b ++ (b'.' ∷ (numeral c ++ (b'.' ∷ numeral d)))))

abbrev pub is_byte_value : ℕ → Bool
is_byte_value n = not (ltb 255 n)

-- Four numbers in the range of int between dots are an upstream's address, and an IP address
-- exactly when each is at most 255.
pub make_upstream-dotted :
    (a b c d : ℕ) (weight port : ℤ)
    → in_int_range (pos a) ≡ true
    → in_int_range (pos b) ≡ true
    → in_int_range (pos c) ≡ true
    → in_int_range (pos d) ≡ true
    → make_upstream (dotted a b c d) weight port
      ≡ ok (record {
        upstream_address = dotted a b c d;
        weight = weight;
        port = port;
        is_ip = is_byte_value a && (is_byte_value b && (is_byte_value c && is_byte_value d));
      })
unfolding make_upstream check_ip
make_upstream-dotted a b c d weight port ha hb hc hd =
    let address = dotted a b c d in
    let a0 = At-start address in
    let a1 = At-dot address 0 a _ a0 in
    let a2 = At-dot address _ b _ a1 in
    let a3 = At-dot address _ c _ a2 in
    ground (
      arith,
      check_ip-numeral address 2 0 a _ a0 ha,
      check_ip-numeral address 1 _ b _ a1 hb,
      check_ip-numeral address 0 _ c _ a2 hc,
      check_last-numeral address _ d a3 hd,
    )
