-- ===== src/PermitOpen/Decimal.antt =====
-- Numbers in decimal, as a user writes them in a permit-open list.
use zettahealthonramp.Base.{
  ℕ, zero, suc, ◌+◌, ◌*◌, ◌/◌, ◌%◌, ◌^◌, ◌≤◌, ◌<◌, ◌≡◌, refl, sym, ap, ◌∙◌, inl, inr, true, false,
  none, some, [], ◌∷◌, ◌++◌, append-nil, append_assoc, arith, ltb, if◌then◌else◌, ltb→lt,
  Bool-cases, Text, All, All-append,
}
use zettahealthonramp.PermitOpen.{long_max, is_digit, read_digits, starts_digit, convert, read_port}

unfoldable pub digits : ℕ → ℕ → Text
digits zero n = (b'0' + n) ∷ []
digits (suc f) n =
    let more = digits f (n / 10) ++ (b'0' + n % 10) ∷ [] in
    if ltb n 10 then (b'0' + n) ∷ [] else more

-- A number has fewer digits than its value, so the fuel is enough.
unfoldable pub decimal : ℕ → Text
unfolding digits
decimal n = digits n n

read_digits-digit :
    (acc d m : ℕ) (rest : Text)
    → d < 10
    → acc * 10 + d ≡ m
    → read_digits acc ((b'0' + d) ∷ rest) ≡ read_digits m rest
unfolding read_digits
read_digits-digit acc d m rest h e = ground arith

tenth-le : (n f : ℕ) → n ≤ suc f → n / 10 ≤ f
tenth-le n f h = omega arith

read_digits-digits :
    (f n : ℕ) (rest : Text) → n ≤ f → read_digits 0 (digits f n ++ rest) ≡ read_digits n rest
unfolding digits
read_digits-digits zero n rest h = read_digits-digit 0 n n rest (omega arith) (omega arith)
read_digits-digits (suc f) n rest h = elim (Bool-cases (ltb n 10)) [
  | inl small ↦ rw small (read_digits-digit 0 n n rest (ltb→lt n 10 small) (omega arith))
  | inr large ↦
      rw (large, append_assoc)
        (read_digits-digits f (n / 10) _ (tenth-le n f h)
          ∙ read_digits-digit (n / 10) (n % 10) n rest (omega arith) (omega arith))
]

abbrev pub IsDigit : ℕ → Type 0
IsDigit c = is_digit c ≡ true

digits-IsDigit : (f n : ℕ) → n ≤ f → All IsDigit (digits f n)
unfolding digits
digits-IsDigit zero n h = (ground arith, tt)
digits-IsDigit (suc f) n h = elim (Bool-cases (ltb n 10)) [
  | inl small ↦ rw small (ground arith, tt)
  | inr large ↦ rw large (
      All-append IsDigit (digits f (n / 10)) _ (digits-IsDigit f (n / 10) (tenth-le n f h))
        (ground arith, tt))
]

starts_digit-digits : (f n : ℕ) (rest : Text) → n ≤ f → starts_digit (digits f n ++ rest) ≡ true
unfolding digits
starts_digit-digits zero n rest h = ground arith
starts_digit-digits (suc f) n rest h = elim (Bool-cases (ltb n 10)) [
  | inl small ↦ rw small (ground arith)
  | inr large ↦ rw (large, append_assoc) (starts_digit-digits f (n / 10) _ (tenth-le n f h))
]

read_digits-nil : (n : ℕ) → read_digits n [] ≡ (n, [])
unfolding read_digits
read_digits-nil n = refl

pub read_digits-decimal : (n : ℕ) → read_digits 0 (decimal n) ≡ (n, [])
unfolding decimal
read_digits-decimal n =
    ap (read_digits 0) (sym (append-nil (digits n n)))
    ∙ read_digits-digits n n [] (omega arith)
    ∙ read_digits-nil n

convert-decimal :
    (s : Text) (n : ℕ)
    → starts_digit s ≡ true
    → read_digits 0 s ≡ (n, [])
    → n ≤ long_max
    → convert false s ≡ some (n % 2 ^ 16)
unfolding convert
convert-decimal s n d e h = rw (d, e) (ground arith)

read_port-convert : (s : Text) → starts_digit s ≡ true → read_port false s ≡ convert false s
unfolding read_port
read_port-convert [] d = cc
read_port-convert (c ∷ s) d = ground arith

pub starts_digit-decimal : (n : ℕ) → starts_digit (decimal n) ≡ true
unfolding decimal
starts_digit-decimal n =
    ap starts_digit (sym (append-nil (digits n n))) ∙ starts_digit-digits n n [] (omega arith)

-- What the port parser makes of a number: its value, cut to 16 bits.
pub read_port-decimal : (n : ℕ) → n ≤ long_max → read_port false (decimal n) ≡ some (n % 2 ^ 16)
read_port-decimal n h =
    read_port-convert (decimal n) (starts_digit-decimal n)
    ∙ convert-decimal (decimal n) n (starts_digit-decimal n) (read_digits-decimal n) h

pub decimal-IsDigit : (n : ℕ) → All IsDigit (decimal n)
unfolding decimal
decimal-IsDigit n = digits-IsDigit n n (omega arith)

read_digits_stop : (n c : ℕ) (t : Text) → is_digit c ≡ false → read_digits n (c ∷ t) ≡ (n, c ∷ t)
unfolding read_digits
read_digits_stop n c t h = rw h

convert_stop :
    (s : Text) (n c : ℕ) (t : Text) → read_digits 0 s ≡ (n, c ∷ t) → convert false s ≡ none
unfolding convert
convert_stop s n c t e = rw e (ground arith)

-- A number with any other byte behind it is refused.
pub read_port-decimal_more :
    (n c : ℕ) (t : Text) → is_digit c ≡ false → read_port false (decimal n ++ c ∷ t) ≡ none
unfolding decimal
read_port-decimal_more n c t h =
    read_port-convert _ (starts_digit-digits n n (c ∷ t) (omega arith))
    ∙ convert_stop _ n c t (read_digits-digits n n (c ∷ t) (omega arith) ∙ read_digits_stop n c t h)
