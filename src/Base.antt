-- ===== src/Base.antt =====
-- Names and lemmas that the models of packages/c share: bytes, C strings, outcomes of C functions.
use Prim.Native.Nat.{compare, Ordering}
use Prim.Native.Char.{code}
pub use Prim.Native.String.{String}
pub use Prim.Native.Nat.{ℕ, zero, suc, ◌+◌, ◌-◌, ◌*◌, ◌/◌, ◌%◌, ◌^◌, ◌≤◌, ◌<◌}
pub use mathlib.Core.Path.{◌≡◌, refl, sym, ap, ap₂, subst, ◌∙◌}
pub use mathlib.Core.Logic.{◌≢◌, ◌↔◌, ◌⊎◌, inl, inr}
pub use mathlib.Core.Bool.{Bool, true, false, not, ◌&&◌, ◌||◌}
pub use mathlib.Core.Option.{Option, none, some}
pub use mathlib.Core.List.{List, [], ◌∷◌, ◌++◌, map, map-append, append-nil, append_assoc}
pub use native.Mathlib.Omega.{arith}
pub use native.Mathlib.Nat.{zero-add}
pub use native.Mathlib.Numerals.{add-one}

abbrev pub ltb : ℕ → ℕ → Bool
ltb a b = elim (compare a b) [ Ordering.lt ↦ true | _ ↦ false ]

abbrev pub leb : ℕ → ℕ → Bool
leb a b = elim (compare a b) [ Ordering.gt ↦ false | _ ↦ true ]

infix 50 ◌==◌
abbrev pub ◌==◌ : ℕ → ℕ → Bool
a == b = elim (compare a b) [ Ordering.eq ↦ true | _ ↦ false ]

infix 1 if◌then◌else◌
abbrev pub if◌then◌else◌ {ℓ} : {A : Type ℓ} → Bool → A → A → A
if true then x else y = x
if false then x else y = y

pub ltb→lt : (a b : ℕ) → ltb a b ≡ true → a < b
ltb→lt a b h = ground arith

pub Bool-cases : (b : Bool) → (b ≡ true) ⊎ (b ≡ false)
Bool-cases true = inl refl
Bool-cases false = inr refl

pub lt-cases : (a b : ℕ) → (a < b) ⊎ (b ≤ a)
lt-cases a b = elim (Bool-cases (ltb a b)) [
  | inl h ↦ inl (ltb→lt a b h)
  | inr h ↦ inr (ground arith)
]

pub Option-cases {ℓ} : {A : Type ℓ} (o : Option A) → (o ≡ none) ⊎ ((a : A) × (o ≡ some a))
Option-cases none = inl refl
Option-cases (some a) = inr (a, refl)

abbrev pub is_some {ℓ} : {A : Type ℓ} → Option A → Bool
is_some none = false
is_some (some a) = true

-- The bytes of a C string, without its NUL.
abbrev pub Text : Type 0
Text = List ℕ

abbrev pub concat : List Text → Text
concat [] = []
concat (t ∷ ts) = t ++ concat ts

-- The bytes of an ASCII literal.
abbrev pub codes : String → Text
codes String.[] = []
codes (String.◌∷◌ c s) = code c ∷ codes s

module _ {ℓ} {A : Type ℓ} where
  abbrev pub length : List A → ℕ
  length [] = 0
  length (x ∷ xs) = suc (length xs)

  abbrev pub take : ℕ → List A → List A
  take zero xs = []
  take (suc n) [] = []
  take (suc n) (x ∷ xs) = x ∷ take n xs

  abbrev pub drop : ℕ → List A → List A
  drop zero xs = xs
  drop (suc n) [] = []
  drop (suc n) (x ∷ xs) = drop n xs

  abbrev pub nth : ℕ → List A → Option A
  nth n [] = none
  nth zero (x ∷ xs) = some x
  nth (suc n) (x ∷ xs) = nth n xs

  pub nth_lem : (n : ℕ) (xs : List A) → n < length xs → (x : A) × (nth n xs ≡ some x)
  nth_lem n [] h = absurd (omega arith)
  nth_lem zero (x ∷ xs) h = (x, refl)
  nth_lem (suc n) (x ∷ xs) h = nth_lem n xs (omega arith)

  pub drop-nth : (n : ℕ) (xs : List A) (x : A) → nth n xs ≡ some x → drop n xs ≡ x ∷ drop (suc n) xs
  drop-nth n [] x h = absurd (ground arith)
  drop-nth zero (y ∷ xs) x h = ground arith
  drop-nth (suc n) (y ∷ xs) x h = drop-nth n xs x h

  pub take-nth :
      (n : ℕ) (xs : List A) (x : A) → nth n xs ≡ some x → take (suc n) xs ≡ take n xs ++ x ∷ []
  take-nth n [] x h = absurd (ground arith)
  take-nth zero (y ∷ xs) x h = ground arith
  take-nth (suc n) (y ∷ xs) x h = ap (λ t. y ∷ t) (take-nth n xs x h)

  pub take-all : (n : ℕ) (xs : List A) → length xs ≤ n → take n xs ≡ xs
  take-all zero [] h = refl
  take-all zero (x ∷ xs) h = absurd (omega arith)
  take-all (suc n) [] h = refl
  take-all (suc n) (x ∷ xs) h = ap (λ t. x ∷ t) (take-all n xs (omega arith))

  pub drop-past : (n : ℕ) (xs : List A) → length xs ≤ n → drop n xs ≡ []
  drop-past zero [] h = refl
  drop-past zero (x ∷ xs) h = absurd (omega arith)
  drop-past (suc n) [] h = refl
  drop-past (suc n) (x ∷ xs) h = drop-past n xs (omega arith)

  pub length-append : (xs ys : List A) → length (xs ++ ys) ≡ length xs + length ys
  length-append [] ys = omega arith
  length-append (x ∷ xs) ys = omega (arith, length-append xs ys)

module _ {ℓ κ} {A : Type ℓ} (P : A → Type κ) where
  abbrev pub All : List A → Type κ
  All [] = Unit
  All (x ∷ xs) = P x × All xs

  pub All-append : (xs ys : List A) → All xs → All ys → All (xs ++ ys)
  All-append [] ys _ hy = hy
  All-append (x ∷ xs) ys (px, hx) hy = (px, All-append xs ys hx hy)

abbrev pub Any {ℓ} : {A : Type ℓ} → (A → Type 0) → List A → Type 0
Any P [] = ⊥
Any P (x ∷ xs) = P x ⊎ Any P xs

pub Any-append {ℓ} :
    {A : Type ℓ} (P : A → Type 0) (xs ys : List A) → Any P (xs ++ ys) → Any P xs ⊎ Any P ys
Any-append P [] ys h = inr h
Any-append P (x ∷ xs) ys (inl h) = inl (inl h)
Any-append P (x ∷ xs) ys (inr h) = elim (Any-append P xs ys h) [
  | inl here ↦ inl (inr here)
  | inr there ↦ inr there
]

-- `strcmp(a, b) == 0`.
unfoldable pub str_eq : Text → Text → Bool
str_eq [] [] = true
str_eq (x ∷ xs) (y ∷ ys) = x == y && str_eq xs ys
str_eq _ _ = false

pub str_eq_iff : (a b : Text) → (str_eq a b ≡ true) ↔ (a ≡ b)
unfolding str_eq
str_eq_iff (x ∷ a) (y ∷ b) = ground (arith, str_eq_iff a b)
str_eq_iff _ _ = ground arith

pub str_eq_refl : (a : Text) → str_eq a a ≡ true
str_eq_refl a = (str_eq_iff a a).1 refl

-- Whether `strncmp` on at most `n` bytes answers other than 0.
unfoldable pub strncmp : ℕ → Text → Text → Bool
strncmp zero s t = false
strncmp (suc n) [] [] = false
strncmp (suc n) [] (d ∷ t) = true
strncmp (suc n) (c ∷ s) [] = true
strncmp (suc n) (c ∷ s) (d ∷ t) = if c == d then strncmp n s t else true

-- What a C function comes to: a result, an error return, or an access outside of its buffer.
pub data Outcome {ℓ} (A : Type ℓ) : Type ℓ where
  ok : A → Outcome A
  error : Outcome A
  fault : Outcome A

infixl 5 ◌>>=◌
abbrev pub ◌>>=◌ {ℓ κ} : {A : Type ℓ} {B : Type κ} → Outcome A → (A → Outcome B) → Outcome B
ok a >>= f = f a
error >>= f = error
fault >>= f = fault

-- Where a sequence of two parts ends in a result, its first part had one too.
pub first_passed {ℓ κ} :
    {B : Type κ} {X : Type ℓ} (later : X → Outcome B) (first : Outcome X) {end : B}
    → (first >>= later) ≡ ok end
    → (x : X) × (first ≡ ok x) × (later x ≡ ok end)
first_passed later fault e = cc
first_passed later error e = cc
first_passed later (ok x) e = (x, refl, e)

-- A pointer into a buffer is the bytes from there to the end. The C string at the pointer, and
-- the pointer behind its NUL; a buffer without a NUL is read past its end.
unfoldable pub c_str : List ℕ → Outcome (Text × List ℕ)
c_str [] = fault
c_str (c ∷ s) = if c == 0 then ok ([], s) else (c_str s >>= λ r. ok (c ∷ r.0, r.1))

abbrev pub Lacks : ℕ → Text → Type 0
Lacks b = All (λ c. c ≢ b)

pub c_str-append : (t rest : Text) → Lacks 0 t → c_str (t ++ 0 ∷ rest) ≡ ok (t, rest)
unfolding c_str
c_str-append [] rest h = refl
c_str-append (c ∷ t) rest (hc, ht) = ground (arith, c_str-append t rest ht)
