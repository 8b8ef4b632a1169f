-- ===== src/PermitOpen/Trim.antt =====
-- The trimming of quotes at both ends, and the whole parser on an input of a known shape.
use zettahealthonramp.Base.{
  ℕ, ◌+◌, ◌≡◌, refl, sym, ap, ap₂, ◌∙◌, true, false, none, some, List, [], ◌∷◌, ◌++◌, map,
  append_assoc, arith, zero-add, Text, length, drop, All,
}
use zettahealthonramp.PermitOpen.{
  is_quote, leading_quotes, trimmed_end, terminate, sep_count, read_allocated, parse_permitopen,
  Env,
}
use zettahealthonramp.PermitOpen.Buffer.{cut, colons, terminate-map, sep_count-colons}

abbrev pub IsQuote : ℕ → Type 0
IsQuote c = is_quote c ≡ true

-- No quote at either end, and not empty.
abbrev pub StartsPlain : Text → Type 0
StartsPlain [] = ⊥
StartsPlain (c ∷ s) = is_quote c ≡ false

abbrev pub EndsPlain : Text → Type 0
EndsPlain s = trimmed_end s ≡ some (length s)

leading_quotes-append :
    (q s : Text) → All IsQuote q → StartsPlain s → leading_quotes (q ++ s) ≡ length q
unfolding leading_quotes
leading_quotes-append [] [] h p = absurd p
leading_quotes-append [] (c ∷ s) h p = ground arith
leading_quotes-append (c ∷ q) s (hc, hq) p = ground (arith, leading_quotes-append q s hq p)

pub trimmed_end_quotes : (q : Text) → All IsQuote q → trimmed_end q ≡ none
unfolding trimmed_end
trimmed_end_quotes [] h = refl
trimmed_end_quotes (c ∷ q) (hc, hq) = rw (trimmed_end_quotes q hq, hc)

-- Quotes behind a text do not move its end.
trimmed_end-append : (s t : Text) → All IsQuote t → trimmed_end (s ++ t) ≡ trimmed_end s
unfolding trimmed_end
trimmed_end-append [] t h = trimmed_end_quotes t h
trimmed_end-append (c ∷ s) t h = rw (trimmed_end-append s t h)

-- What stands before a text moves its end by its own length.
pub trimmed_end_before :
    (q s : Text) {n : ℕ} → trimmed_end s ≡ some n → trimmed_end (q ++ s) ≡ some (length q + n)
unfolding trimmed_end
trimmed_end_before [] s h = h ∙ ap some (sym (zero-add _))
trimmed_end_before (c ∷ q) s {n} h = rw (trimmed_end_before q s h) (ap some (omega arith))

drop-length : (q s : List ℕ) → drop (length q) (q ++ s) ≡ s
drop-length [] s = refl
drop-length (c ∷ q) s = drop-length q s

StartsPlain-append : (s t : Text) → StartsPlain s → StartsPlain (s ++ t)
StartsPlain-append [] t p = absurd p
StartsPlain-append (c ∷ s) t p = p

drop_input : (q s t : Text) → drop (length q) ((q ++ (s ++ t)) ++ 0 ∷ []) ≡ s ++ (t ++ 0 ∷ [])
drop_input q s t =
    ap (drop (length q)) (append_assoc q (s ++ t) (0 ∷ []))
    ∙ drop-length q ((s ++ t) ++ 0 ∷ [])
    ∙ append_assoc s t (0 ∷ [])

parse_permitopen_lem :
    (env : Env) (input : Text) (start n : ℕ) (s : List ℕ)
    → trimmed_end input ≡ some (start + n)
    → leading_quotes input ≡ start
    → drop start (input ++ 0 ∷ []) ≡ s
    → parse_permitopen env input ≡ read_allocated env (sep_count n s) (terminate n s)
unfolding parse_permitopen
parse_permitopen_lem env input start n s he hs hd =
    rw (he, hs, hd, parse_permitopen)
      (ap (λ k. read_allocated env (sep_count k s) (terminate k s)) (omega arith))

-- Leading quotes are skipped. Trailing ones are not marked, and stay behind the last port.
pub parse_permitopen-shape :
    (env : Env) (q s t : Text)
    → All IsQuote q
    → All IsQuote t
    → StartsPlain s
    → EndsPlain s
    → parse_permitopen env (q ++ (s ++ t))
      ≡ read_allocated env (colons s) (map cut s ++ (t ++ 0 ∷ []))
parse_permitopen-shape env q s t hq ht ps es =
    parse_permitopen_lem env (q ++ (s ++ t)) (length q) (length s) (s ++ (t ++ 0 ∷ []))
      (trimmed_end_before q (s ++ t) (trimmed_end-append s t ht ∙ es))
      (leading_quotes-append q (s ++ t) hq (StartsPlain-append s t ps)) (drop_input q s t)
    ∙ ap₂ (read_allocated env) (sep_count-colons s (t ++ 0 ∷ [])) (terminate-map s (t ++ 0 ∷ []))
