-- ===== src/PermitOpen/Reference/Agrees.antt =====
-- packages/c/sshnpd/src/permitopen.c: the parser agrees with the one that marks no buffer.
use zettahealthonramp.Base.{
  ℕ, zero, suc, ◌≡◌, refl, sym, ap, ap₂, subst, ◌∙◌, inl, inr, false, none, some, List, [], ◌∷◌,
  ◌++◌, map, map-append, append-nil, append_assoc, arith, Bool-cases, Option-cases, Text, All,
  Lacks, fault,
}
use zettahealthonramp.PermitOpen.{is_quote, trimmed_end, read_allocated, parse_permitopen, Env}
use zettahealthonramp.PermitOpen.Buffer.{cut, colons, colons-append}
use zettahealthonramp.PermitOpen.Trim.{
  IsQuote, StartsPlain, EndsPlain, trimmed_end_quotes, parse_permitopen-shape,
}
use zettahealthonramp.PermitOpen.Reference.{
  fields, allocated_pairs, unquoted, split_permitopen, joined, joined-fields, fields-Lacks,
  read_entries-joined,
}

-- A text whose end is found at `n`: quotes stand behind it.
record Ends (x : Text) : Type 0 where
  core : Text
  quotes : Text
  is : x ≡ core ++ quotes
  behind : All IsQuote quotes
  plain : EndsPlain core

trimmed_end-IsQuote : (x : Text) → trimmed_end x ≡ none → All IsQuote x
unfolding trimmed_end
trimmed_end-IsQuote [] h = tt
trimmed_end-IsQuote (c ∷ x) h = elim (Option-cases (trimmed_end x)) [
  | inl ended ↦ (ground (arith, ended), trimmed_end-IsQuote x ended)
  | inr (n, e) ↦ absurd (ground (arith, e))
]

Ends-cons : (c n : ℕ) (x : Text) → trimmed_end x ≡ some n → Ends x → Ends (c ∷ x)
unfolding trimmed_end
Ends-cons c n x e r = record {
  core = c ∷ r.core;
  quotes = r.quotes;
  is = ap (λ t. c ∷ t) r.is;
  behind = r.behind;
  plain = rw r.plain refl;
}

find_end : (n : ℕ) (x : Text) → trimmed_end x ≡ some n → Ends x
unfolding trimmed_end
find_end n [] h = absurd (ground arith)
find_end n (c ∷ x) h = elim (Option-cases (trimmed_end x)) [
  | inl ended ↦ record {
    core = c ∷ [];
    quotes = x;
    is = refl;
    behind = trimmed_end-IsQuote x ended;
    plain = ground (arith, ended);
  }
  | inr (m, e) ↦ Ends-cons c m x e (find_end m x e)
]

quotes_colons : (t : Text) → All IsQuote t → colons t ≡ 0
unfolding colons
quotes_colons [] h = refl
quotes_colons (c ∷ t) (hc, ht) = ground (arith, quotes_colons t ht)

quotes_cut : (t : Text) → All IsQuote t → map cut t ≡ t
unfolding cut
quotes_cut [] h = refl
quotes_cut (c ∷ t) (hc, ht) = ground (arith, quotes_cut t ht)

-- The input is its leading quotes and the rest.
unquoted-split : (x : Text) → (q : Text) × All IsQuote q × (x ≡ q ++ unquoted x)
unfolding unquoted
unquoted-split [] = ([], tt, refl)
unquoted-split (c ∷ x) = elim (Bool-cases (is_quote c)) [
  | inl quote ↦
      let (q, hq, e) = unquoted-split x in rw quote (c ∷ q, (quote, hq), ap (λ t. c ∷ t) e)
  | inr plain ↦ rw plain ([], tt, refl)
]

unquoted_plain : (x : Text) (c : ℕ) (s : Text) → unquoted x ≡ c ∷ s → is_quote c ≡ false
unfolding unquoted
unquoted_plain [] c s h = absurd (ground arith)
unquoted_plain (d ∷ x) c s h = elim (Bool-cases (is_quote d)) [
  | inl quote ↦ unquoted_plain x c s (ground (arith, quote))
  | inr plain ↦ ground (arith, plain)
]

plain_ended : (c : ℕ) (s : Text) → is_quote c ≡ false → (n : ℕ) × (trimmed_end (c ∷ s) ≡ some n)
unfolding trimmed_end
plain_ended c s h = elim (Option-cases (trimmed_end s)) [
  | inl none_left ↦ rw (none_left, h) (1, refl)
  | inr (n, e) ↦ rw e (suc n, refl)
]

core_plain :
    (c : ℕ) (s core quotes : Text)
    → is_quote c ≡ false
    → EndsPlain core
    → c ∷ s ≡ core ++ quotes
    → StartsPlain core
core_plain c s [] quotes h p e = unfold trimmed_end in absurd (ground arith)
core_plain c s (d ∷ core) quotes h p e = ground arith

read_allocated-pairs :
    (env : Env) (n : ℕ) (parts : List Text)
    → All (Lacks 0) parts
    → read_allocated env n (joined parts) ≡ allocated_pairs env n parts
unfolding read_allocated
read_allocated-pairs env zero parts h = refl
read_allocated-pairs env (suc n) parts h =
    rw (read_entries-joined env.errno_is_erange (suc n) parts h) refl

marked_body :
    (core quotes : Text)
    → All IsQuote quotes
    → map cut core ++ (quotes ++ 0 ∷ []) ≡ map cut (core ++ quotes) ++ 0 ∷ []
marked_body core quotes h =
    sym (append_assoc (map cut core) quotes (0 ∷ []))
    ∙ ap (λ t. t ++ 0 ∷ [])
        (ap (λ t. map cut core ++ t) (sym (quotes_cut quotes h)) ∙ sym (map-append cut core quotes))

counted_body : (core quotes : Text) → All IsQuote quotes → colons core ≡ colons (core ++ quotes)
counted_body core quotes h = omega (arith, colons-append core quotes, quotes_colons quotes h)

-- Behind the leading quotes.
parse_body :
    (env : Env) (q : Text) (c : ℕ) (s : Text)
    → All IsQuote q
    → is_quote c ≡ false
    → Lacks 0 (c ∷ s)
    → parse_permitopen env (q ++ (c ∷ s))
      ≡ allocated_pairs env (colons (c ∷ s)) ((fields (c ∷ s)).0 ∷ (fields (c ∷ s)).1)
parse_body env q c s hq h lacks =
    let (n, ended) = plain_ended c s h in
    let r = find_end n (c ∷ s) ended in
    ap (λ t. parse_permitopen env (q ++ t)) r.is
    ∙ parse_permitopen-shape env q r.core r.quotes hq r.behind
        (core_plain c s r.core r.quotes h r.plain r.is) r.plain
    ∙ ap₂ (read_allocated env) (counted_body r.core r.quotes r.behind ∙ ap colons (sym r.is)) (
        marked_body r.core r.quotes r.behind
        ∙ ap (λ t. map cut t ++ 0 ∷ []) (sym r.is)
        ∙ sym (joined-fields (c ∷ s)))
    ∙ read_allocated-pairs env (colons (c ∷ s)) _ (fields-Lacks (c ∷ s) lacks)

parse_quotes : (env : Env) (q : Text) → All IsQuote q → parse_permitopen env q ≡ fault
unfolding parse_permitopen
parse_quotes env q h = rw (trimmed_end_quotes q h, parse_permitopen) refl

Lacks-behind : (q x : Text) → Lacks 0 (q ++ x) → Lacks 0 x
Lacks-behind [] x h = h
Lacks-behind (c ∷ q) x (hc, h) = Lacks-behind q x h

parse_split :
    (env : Env) (input q body : Text)
    → Lacks 0 input
    → All IsQuote q
    → input ≡ q ++ body
    → unquoted input ≡ body
    → parse_permitopen env input ≡ split_permitopen env input
unfolding split_permitopen
parse_split env input q [] lacks hq e u =
    rw (u, split_permitopen) (ap (parse_permitopen env) (e ∙ append-nil q) ∙ parse_quotes env q hq)
parse_split env input q (c ∷ s) lacks hq e u =
    rw (u, split_permitopen)
      (ap (parse_permitopen env) e
        ∙ parse_body env q c s hq (unquoted_plain input c s u)
            (Lacks-behind q (c ∷ s) (subst (Lacks 0) e lacks)))

-- On every input without a NUL, and whatever malloc and errno are, the parser that marks its buffer and
-- walks over it comes to the same as the one that splits the text: the same pairs, the same errors, and
-- the same reads outside of the buffer.
pub parse_permitopen-split_permitopen :
    (env : Env) (input : Text)
    → Lacks 0 input
    → parse_permitopen env input ≡ split_permitopen env input
parse_permitopen-split_permitopen env input lacks =
    let (q, hq, e) = unquoted-split input in
    parse_split env input q (unquoted input) lacks hq e refl
