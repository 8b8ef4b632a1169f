-- ===== src/PermitOpen/RoundTrip.antt =====
-- Lists of pairs as they are written on the command line, through the parser.
use zettahealthonramp.Base.{
  ℕ, zero, suc, ◌≡◌, refl, sym, ap, ap₂, subst, ◌∙◌, ◌≢◌, true, false, none, some, List, [], ◌∷◌,
  ◌++◌, map, map-append, append-nil, append_assoc, arith, Text, length-append, All, All-append,
  c_str, Lacks, c_str-append, ok, error, fault,
}
use zettahealthonramp.PermitOpen.{
  is_quote, trimmed_end, read_port, read_entries, read_allocated, parse_permitopen, Env,
}
use zettahealthonramp.PermitOpen.Decimal.{read_port-decimal_more}
use zettahealthonramp.PermitOpen.Buffer.{
  print_port, print_pair, print_pairs, entry, IsHostByte, IsPair, cut, colons, colons-append,
  map-cut_host, colons_host, host-Lacks, print_port_host, map-cut-print_pairs, colons-print_pairs,
  memory-append, prepend, read_entries-pair, read_entries-memory, PortSpec, Pair, any_port, number,
}
use zettahealthonramp.PermitOpen.Trim.{
  IsQuote, StartsPlain, EndsPlain, trimmed_end_before, parse_permitopen-shape,
}

abbrev pub ready : Env
ready = record { hosts_allocated = true; ports_allocated = true; errno_is_erange = false }

-- The pairs `ps` and then `last`, with commas between.
pub print_list : List Pair → Pair → Text
print_list ps last = print_pairs ps (print_pair last)

StartsPlain-host : (h : Text) (rest : Text) → All IsHostByte h → StartsPlain (h ++ b':' ∷ rest)
StartsPlain-host [] rest h = refl
StartsPlain-host (c ∷ h) rest (hc, hh) = ground arith

StartsPlain-more :
    (ps : List Pair) (last : Pair) (rest : Text)
    → All IsPair ps
    → IsPair last
    → StartsPlain (print_pairs ps (print_pair last ++ rest))
unfolding print_pairs print_pair
StartsPlain-more [] last rest h hl =
    rw append_assoc (StartsPlain-host last.name (print_port last.spec ++ rest) hl.0)
StartsPlain-more (p ∷ ps) last rest (hp, hps) hl = StartsPlain-host p.name _ hp.0

StartsPlain-print :
    (ps : List Pair) (last : Pair)
    → All IsPair ps
    → IsPair last
    → StartsPlain (print_pairs ps (print_pair last))
StartsPlain-print ps last hps hl =
    subst (λ s. StartsPlain (print_pairs ps s)) (append-nil (print_pair last))
      (StartsPlain-more ps last [] hps hl)

EndsPlain-host : (c : ℕ) (h : Text) → is_quote c ≡ false → All IsHostByte h → EndsPlain (c ∷ h)
unfolding trimmed_end
EndsPlain-host c [] hc h = rw hc
EndsPlain-host c (d ∷ h) hc (hd, hh) = rw (EndsPlain-host d h (ground arith) hh)

EndsPlain-append : (s t : Text) → EndsPlain t → EndsPlain (s ++ t)
EndsPlain-append s t h = trimmed_end_before s t h ∙ ap some (sym (length-append s t))

EndsPlain-print : (ps : List Pair) (rest : Text) → EndsPlain rest → EndsPlain (print_pairs ps rest)
unfolding print_pairs
EndsPlain-print [] rest h = h
EndsPlain-print (p ∷ ps) rest h = EndsPlain-append p.name _ (
    EndsPlain-append (b':' ∷ print_port p.spec) (b',' ∷ print_pairs ps rest)
      (EndsPlain-append (b',' ∷ []) (print_pairs ps rest) (EndsPlain-print ps rest h)))

read_allocated-ready : (n : ℕ) (s : List ℕ) → read_allocated ready n s ≡ read_entries false n s
unfolding read_allocated
read_allocated-ready zero s = refl
read_allocated-ready (suc n) s = refl

EndsPlain-pair : (p : Pair) → IsPair p → EndsPlain (print_pair p)
unfolding print_pair
EndsPlain-pair p h =
    EndsPlain-append p.name _
      (EndsPlain-host b':' (print_port p.spec) refl (print_port_host p.spec))

map-cut_pair : (p : Pair) → IsPair p → map cut (print_pair p) ≡ p.name ++ (0 ∷ print_port p.spec)
unfolding print_pair cut
map-cut_pair p h =
    simp (
      map-append,
      map-cut_host p.name h.0,
      map-cut_host (print_port p.spec) (print_port_host p.spec),
    )

colons_pair : (p : Pair) → IsPair p → colons (print_pair p) ≡ 1
unfolding print_pair colons
colons_pair p h = omega (
  arith,
  colons-append p.name (b':' ∷ print_port p.spec),
  colons_host p.name h.0,
  colons_host (print_port p.spec) (print_port_host p.spec),
)

read_port_quote :
    (p : PortSpec) (c : ℕ) (t : Text)
    → is_quote c ≡ true
    → read_port false (print_port p ++ c ∷ t) ≡ none
unfolding print_port
read_port_quote any_port c t h = unfold read_port in refl
read_port_quote (number n) c t h = read_port-decimal_more n c t (ground arith)

quote-Lacks : (t : Text) → All IsQuote t → Lacks 0 t
quote-Lacks [] h = tt
quote-Lacks (c ∷ t) (hc, ht) = (ground arith, quote-Lacks t ht)

read_entries_quote :
    (p : Pair) (c : ℕ) (t : Text)
    → IsPair p
    → All IsQuote (c ∷ t)
    → read_entries false 1 ((p.name ++ (0 ∷ print_port p.spec)) ++ (c ∷ t ++ 0 ∷ [])) ≡ error
unfolding read_entries
read_entries_quote p c t h ht = rw (
  append_assoc,
  c_str-append p.name _ (host-Lacks p.name h.0),
  ← append_assoc (print_port p.spec) (c ∷ t) (0 ∷ []),
  c_str-append (print_port p.spec ++ c ∷ t) [] (
      All-append (λ b. b ≢ 0) (print_port p.spec) (c ∷ t)
        (host-Lacks (print_port p.spec) (print_port_host p.spec)) (quote-Lacks (c ∷ t) ht)),
  read_port_quote p.spec c t ht.0,
)

-- The parser on some pairs, more text `x` of a known shape, and trailing quotes.
parse_permitopen-pairs :
    (q : Text) (ps : List Pair) (x t : Text)
    → All IsQuote q
    → All IsQuote t
    → All IsPair ps
    → StartsPlain (print_pairs ps x)
    → EndsPlain x
    → parse_permitopen ready (q ++ (print_pairs ps x ++ t))
      ≡ prepend (map entry ps) (read_entries false (colons x) (map cut x ++ (t ++ 0 ∷ [])))
parse_permitopen-pairs q ps x t hq ht hps hs he =
    parse_permitopen-shape ready q (print_pairs ps x) t hq ht hs (EndsPlain-print ps x he)
    ∙ read_allocated-ready _ _
    ∙ ap₂ (read_entries false) (colons-print_pairs ps x hps)
        (ap (λ s. s ++ (t ++ 0 ∷ [])) (map-cut-print_pairs ps x hps) ∙ memory-append ps _ _)
    ∙ read_entries-memory ps (colons x) _ hps

-- The reading of the last pair, with more bytes behind its NUL.
read_entries-last :
    (p : Pair) (n : ℕ) (rest : List ℕ)
    → IsPair p
    → read_entries false (suc n) ((p.name ++ (0 ∷ print_port p.spec)) ++ (0 ∷ rest))
      ≡ prepend (entry p ∷ []) (read_entries false n rest)
read_entries-last p n rest h =
    ap (read_entries false (suc n)) (append_assoc p.name (0 ∷ print_port p.spec) (0 ∷ rest))
    ∙ read_entries-pair p n rest h

-- A list of pairs, with quotes in front or not, is read back pair by pair, with port 0 for '*'
-- and any other port cut to 16 bits.
pub parse_permitopen-print_list :
    (q : Text) (ps : List Pair) (last : Pair)
    → All IsQuote q
    → All IsPair ps
    → IsPair last
    → parse_permitopen ready (q ++ print_list ps last) ≡ ok (map entry (ps ++ last ∷ []))
unfolding print_list read_entries
parse_permitopen-print_list q ps last hq hps hl =
    ap (λ s. parse_permitopen ready (q ++ s)) (sym (append-nil (print_list ps last)))
    ∙ parse_permitopen-pairs q ps (print_pair last) [] hq tt hps (StartsPlain-print ps last hps hl)
        (EndsPlain-pair last hl)
    ∙ ap (prepend (map entry ps)) (
        ap₂ (λ n s. read_entries false n (s ++ 0 ∷ [])) (colons_pair last hl) (map-cut_pair last hl)
        ∙ read_entries-last last 0 [] hl)
    ∙ ap ok (sym (map-append entry ps (last ∷ [])))

-- With a quote behind the last port the whole list is refused: the closing quotes that the
-- trimming loop counts stay in the port's text.
parse_permitopen_closing_quote :
    (q : Text) (ps : List Pair) (last : Pair) (c : ℕ) (t : Text)
    → All IsQuote q
    → All IsPair ps
    → IsPair last
    → All IsQuote (c ∷ t)
    → parse_permitopen ready (q ++ (print_list ps last ++ c ∷ t)) ≡ error
unfolding print_list
parse_permitopen_closing_quote q ps last c t hq hps hl ht =
    parse_permitopen-pairs q ps (print_pair last) (c ∷ t) hq ht hps
      (StartsPlain-print ps last hps hl) (EndsPlain-pair last hl)
    ∙ ap (prepend (map entry ps)) (
        ap₂ (λ n s. read_entries false n (s ++ (c ∷ t ++ 0 ∷ []))) (colons_pair last hl)
          (map-cut_pair last hl)
        ∙ read_entries_quote last c t hl ht)

colons_extra :
    (p : Pair) (h : Text) → IsPair p → All IsHostByte h → colons (print_pair p ++ b':' ∷ h) ≡ 2
unfolding colons
colons_extra p h hp hh =
    omega (arith, colons-append (print_pair p) (b':' ∷ h), colons_pair p hp, colons_host h hh)

map-cut_extra :
    (p : Pair) (h : Text)
    → IsPair p
    → All IsHostByte h
    → map cut (print_pair p ++ b':' ∷ h) ≡ (p.name ++ (0 ∷ print_port p.spec)) ++ 0 ∷ h
unfolding cut
map-cut_extra p h hp hh =
    map-append cut (print_pair p) (b':' ∷ h)
    ∙ ap₂ (λ s t. s ++ 0 ∷ t) (map-cut_pair p hp) (map-cut_host h hh)

-- A host with no port behind it.
read_entries_end : (h : Text) → All IsHostByte h → read_entries false 1 (h ++ 0 ∷ []) ≡ fault
unfolding read_entries c_str
read_entries_end h hh = rw (c_str-append h [] (host-Lacks h hh))

-- A separator too many, with no port of its own behind it, makes the parser read past the end of
-- its buffer.
parse_permitopen_extra_colon :
    (q : Text) (ps : List Pair) (last : Pair) (h : Text)
    → All IsQuote q
    → All IsPair ps
    → IsPair last
    → All IsHostByte h
    → parse_permitopen ready (q ++ print_pairs ps (print_pair last ++ b':' ∷ h)) ≡ fault
parse_permitopen_extra_colon q ps last h hq hps hl hh =
    ap (λ s. parse_permitopen ready (q ++ s))
      (sym (append-nil (print_pairs ps (print_pair last ++ b':' ∷ h))))
    ∙ parse_permitopen-pairs q ps (print_pair last ++ b':' ∷ h) [] hq tt hps
        (StartsPlain-more ps last (b':' ∷ h) hps hl)
        (EndsPlain-append (print_pair last) (b':' ∷ h) (EndsPlain-host b':' h refl hh))
    ∙ ap (prepend (map entry ps)) (
        ap₂ (λ n s. read_entries false n (s ++ 0 ∷ [])) (colons_extra last h hl hh)
          (map-cut_extra last h hl hh)
        ∙ ap (read_entries false 2)
            (append_assoc (last.name ++ (0 ∷ print_port last.spec)) (0 ∷ h) (0 ∷ []))
        ∙ read_entries-last last 1 (h ++ 0 ∷ []) hl
        ∙ ap (prepend (entry last ∷ [])) (read_entries_end h hh))
