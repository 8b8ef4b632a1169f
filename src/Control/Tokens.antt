-- ===== src/Control/Tokens.antt =====
-- The splitting of the control channel's input into requests.
use zettahealthonramp.Base.{
  ℕ, zero, suc, ◌≤◌, ◌<◌, ◌≡◌, refl, sym, ap, ap₂, subst, ◌∙◌, ◌≢◌, inl, inr, Bool, true, false,
  none, some, List, [], ◌∷◌, ◌++◌, arith, ◌==◌, if◌then◌else◌, Bool-cases, Option-cases, Text,
  concat, length, length-append, All, ◌>>=◌, Lacks, Outcome, ok, error, fault,
}
use zettahealthonramp.Control.{
  skip_delims, token, after_token, strtok_from, strtok, collect, process_multiple_requests,
}

-- What the splitter keeps: all but the delimiters.
pub without : ℕ → Text → Text
without d [] = []
without d (c ∷ s) = if c == d then without d s else c ∷ without d s

abbrev pub IsToken : ℕ → Text → Type 0
IsToken d t = (t ≢ []) × Lacks d t

token-Lacks : (d : ℕ) (s : Text) → Lacks d (token d s)
unfolding token
token-Lacks d [] = tt
token-Lacks d (c ∷ s) = ground (arith, token-Lacks d s)

without-skip_delims : (d : ℕ) (s : Text) → without d (skip_delims d s) ≡ without d s
unfolding skip_delims without
without-skip_delims d [] = refl
without-skip_delims d (c ∷ s) = ground (arith, without-skip_delims d s)

without-token : (d : ℕ) (s : Text) → token d s ++ without d (after_token d s) ≡ without d s
unfolding token after_token without
without-token d [] = refl
without-token d (c ∷ s) = ground (arith, without-token d s)

length-after_token : (d : ℕ) (s : Text) → length (after_token d s) ≤ length s
unfolding after_token
length-after_token d [] = omega arith
length-after_token d (c ∷ s) = ground (arith, length-after_token d s)

length-skip_delims : (d : ℕ) (s : Text) → length (skip_delims d s) ≤ length s
unfolding skip_delims
length-skip_delims d [] = omega arith
length-skip_delims d (c ∷ s) = ground (arith, length-skip_delims d s)

skip_delims_head : (d c : ℕ) (s t : Text) → skip_delims d s ≡ c ∷ t → c ≢ d
unfolding skip_delims
skip_delims_head d c [] t e = cc
skip_delims_head d c (x ∷ s) t e = ground (arith, skip_delims_head d c s t)

token_head : (d c : ℕ) (u : Text) → c ≢ d → token d (c ∷ u) ≢ []
unfolding token
token_head d c u h e = ground arith

shorter_after :
    (d : ℕ) (s : Text) (c : ℕ) (u r : Text)
    → skip_delims d s ≡ c ∷ u
    → after_token d (c ∷ u) ≡ r
    → c ≢ d
    → length r < length s
unfolding after_token
shorter_after d s c u r h e ne = ground (arith, length-after_token d u, length-skip_delims d s)

-- What one call of `strtok_r` gives.
pub record Cuts (d : ℕ) (s t r : Text) : Type 0 where
  is_token : IsToken d t
  keeps : without d s ≡ t ++ without d r
  pub shorter : length r < length s

strtok_from-Cuts :
    (d : ℕ) (s u t r : Text) → skip_delims d s ≡ u → strtok_from d u ≡ some (t, r) → Cuts d s t r
unfolding strtok_from
strtok_from-Cuts d s [] t r h e = cc
strtok_from-Cuts d s (c ∷ u) t r h e =
    let et : token d (c ∷ u) ≡ t = cc e in
    let er : after_token d (c ∷ u) ≡ r = cc e in
    let ne : c ≢ d = skip_delims_head d c s u h in
    record {
      is_token = (
        subst (λ x. x ≢ []) et (token_head d c u ne),
        subst (Lacks d) et (token-Lacks d (c ∷ u)),
      );
      keeps =
          sym (without-skip_delims d s)
          ∙ ap (without d) h
          ∙ sym (without-token d (c ∷ u))
          ∙ ap₂ (λ x y. x ++ without d y) et er;
      shorter = shorter_after d s c u r h er ne;
    }

pub strtok-Cuts : (d : ℕ) (s t r : Text) → strtok d s ≡ some (t, r) → Cuts d s t r
unfolding strtok
strtok-Cuts d s t r e = strtok_from-Cuts d s (skip_delims d s) t r refl e

strtok_from-none : (d : ℕ) (u : Text) → strtok_from d u ≡ none → u ≡ []
unfolding strtok_from
strtok_from-none d [] e = refl
strtok_from-none d (c ∷ u) e = cc

strtok-none : (d : ℕ) (s : Text) → strtok d s ≡ none → without d s ≡ []
unfolding strtok without
strtok-none d s e =
    sym (without-skip_delims d s) ∙ ap (without d) (strtok_from-none d (skip_delims d s) e)

-- The `realloc` for each of these requests succeeds.
abbrev pub AllGranted : (ℕ → Bool) → ℕ → List Text → Type 0
AllGranted allocated count [] = Unit
AllGranted allocated count (t ∷ ts) = (allocated count ≡ true) × AllGranted allocated (suc count) ts

-- Of the result of the splitter, from the request with the number `count` on: each request is a token,
-- they keep all bytes, and each has its memory; or an allocation fails.
abbrev pub Splits : (ℕ → Bool) → ℕ → ℕ → Text → Outcome (List Text) → Type 0
Splits allocated count d s (ok ts) =
    All (IsToken d) ts × (concat ts ≡ without d s) × AllGranted allocated count ts
Splits allocated count d s error = (i : ℕ) × (count ≤ i) × (allocated i ≡ false)
Splits allocated count d s fault = ⊥

Splits-cons :
    (allocated : ℕ → Bool) (count d : ℕ) (s t r : Text) (o : Outcome (List Text))
    → Cuts d s t r
    → allocated count ≡ true
    → Splits allocated (suc count) d r o
    → Splits allocated count d s (o >>= λ rest. ok (t ∷ rest))
Splits-cons allocated count d s t r (ok ts) c g h =
    ((c.is_token, h.0), ap (λ x. t ++ x) h.1 ∙ sym c.keeps, (g, h.2))
Splits-cons allocated count d s t r error c g (i, le, e) = (i, omega arith, e)
Splits-cons allocated count d s t r fault c g h = h

shrink : {a b c : ℕ} → a < b → b < suc c → a < c
shrink p q = omega arith

collect-Splits :
    (allocated : ℕ → Bool) (count fuel : ℕ) (s : Text)
    → length s < fuel
    → Splits allocated count b'\n' s (collect allocated count fuel s)
unfolding collect
collect-Splits allocated count zero s h = elim h [ ]
collect-Splits allocated count (suc fuel) s h = elim (Option-cases (strtok b'\n' s)) [
  | inl none_left ↦ rw (none_left, collect, Splits) (tt, sym (strtok-none b'\n' s none_left), tt)
  | inr (r, e) ↦
      rw (e, collect, Splits)
        (elim (Bool-cases (allocated count)) [
          | inl more ↦
              let c = strtok-Cuts b'\n' s r.0 r.1 e in
              rw more (
                Splits-cons allocated count b'\n' s r.0 r.1 _ c more
                  (collect-Splits allocated (suc count) fuel r.1 (shrink c.shorter h)))
          | inr full ↦ rw full (count, omega arith, full)
        ])
]

-- Whatever the other side sends, no byte is read outside of the buffer, and the splitter answers in one of
-- two ways. It hands on requests that are non-empty texts with no newline in them, and in order are the
-- input without its newlines, so that nothing is lost or made up; then there was memory for each of
-- them. Or it fails, and then one of the allocations failed.
pub process_multiple_requests-Splits :
    (allocated : ℕ → Bool) (s : Text)
    → Splits allocated 0 b'\n' s (process_multiple_requests allocated s)
unfolding process_multiple_requests
process_multiple_requests-Splits allocated s =
    collect-Splits allocated 0 (suc (length s)) s (omega arith)

skip_delims_other : (d c : ℕ) (s : Text) → c ≢ d → skip_delims d (c ∷ s) ≡ c ∷ s
unfolding skip_delims
skip_delims_other d c s h = ground arith

token-append : (d : ℕ) (t rest : Text) → Lacks d t → token d (t ++ d ∷ rest) ≡ t
unfolding token
token-append d [] rest h = ground arith
token-append d (c ∷ t) rest (hc, ht) = ground (arith, token-append d t rest ht)

after_token-append : (d : ℕ) (t rest : Text) → Lacks d t → after_token d (t ++ d ∷ rest) ≡ rest
unfolding after_token
after_token-append d [] rest h = ground arith
after_token-append d (c ∷ t) rest (hc, ht) = ground (arith, after_token-append d t rest ht)

token_end : (d : ℕ) (t : Text) → Lacks d t → token d t ≡ t
unfolding token
token_end d [] h = refl
token_end d (c ∷ t) (hc, ht) = ground (arith, token_end d t ht)

after_token_end : (d : ℕ) (t : Text) → Lacks d t → after_token d t ≡ []
unfolding after_token
after_token_end d [] h = refl
after_token_end d (c ∷ t) (hc, ht) = ground (arith, after_token_end d t ht)

pub strtok-append :
    (d : ℕ) (t rest : Text) → IsToken d t → strtok d (t ++ d ∷ rest) ≡ some (t, rest)
unfolding strtok strtok_from
strtok-append d [] rest (ne, h) = absurd (ne refl)
strtok-append d (c ∷ t) rest (ne, h) =
    rw (skip_delims_other d c (t ++ d ∷ rest) h.0) (
      ap₂ (λ x y. some (x, y)) (token-append d (c ∷ t) rest h)
        (after_token-append d (c ∷ t) rest h))

pub strtok_end : (d : ℕ) (t : Text) → IsToken d t → strtok d t ≡ some (t, [])
unfolding strtok strtok_from
strtok_end d [] (ne, h) = absurd (ne refl)
strtok_end d (c ∷ t) (ne, h) =
    rw (skip_delims_other d c t h.0)
      (ap₂ (λ x y. some (x, y)) (token_end d (c ∷ t) h) (after_token_end d (c ∷ t) h))

-- The requests as the other side writes them, one to a line.
unfoldable pub print_lines : List Text → Text
print_lines [] = []
print_lines (t ∷ ts) = t ++ b'\n' ∷ print_lines ts

abbrev pub always : ℕ → Bool
always n = true

shorter_print :
    (t : Text) (ts : List Text) → length (print_lines ts) < length (print_lines (t ∷ ts))
unfolding print_lines
shorter_print t ts = omega (arith, length-append t (b'\n' ∷ print_lines ts))

collect-print_lines :
    (ts : List Text) (count fuel : ℕ)
    → All (IsToken b'\n') ts
    → length (print_lines ts) < fuel
    → collect always count fuel (print_lines ts) ≡ ok ts
unfolding collect print_lines
collect-print_lines ts count zero h lt = elim lt [ ]
collect-print_lines [] count (suc fuel) h lt = unfold strtok skip_delims strtok_from in refl
collect-print_lines (t ∷ ts) count (suc fuel) (ht, hts) lt = rw (
  strtok-append b'\n' t (print_lines ts) ht,
  collect,
  collect-print_lines ts (suc count) fuel hts (shrink (shorter_print t ts) lt),
)

-- Requests sent one to a line are all recovered, in order.
pub process_multiple_requests-print_lines :
    (ts : List Text)
    → All (IsToken b'\n') ts
    → process_multiple_requests always (print_lines ts) ≡ ok ts
unfolding process_multiple_requests
process_multiple_requests-print_lines ts h =
    collect-print_lines ts 0 (suc (length (print_lines ts))) h (omega arith)

-- One request with no newline behind it.
pub process_multiple_requests_line :
    (t : Text) → IsToken b'\n' t → process_multiple_requests always t ≡ ok (t ∷ [])
unfolding process_multiple_requests collect
process_multiple_requests_line [] (ne, h) = absurd (ne refl)
process_multiple_requests_line (c ∷ t) h =
    rw (strtok_end b'\n' (c ∷ t) h, collect) (unfold strtok skip_delims strtok_from in refl)
