-- ===== src/PermitOpen/Buffer.antt =====
-- What the marking loop leaves in the buffer, and how the reading loop walks over it.
use zettahealthonramp.Base.{
  ℕ, suc, ◌+◌, ◌%◌, ◌^◌, ◌≤◌, ◌≡◌, refl, sym, ap, ◌∙◌, Bool, true, false, not, ◌||◌, some, List, [],
  ◌∷◌, ◌++◌, map, map-append, append_assoc, arith, zero-add, ◌==◌, if◌then◌else◌, Text, length, All,
  ◌>>=◌, Lacks, c_str-append, Outcome, ok, error, fault,
}
use zettahealthonramp.PermitOpen.{
  is_quote, is_separator, terminate, sep_count, long_max, read_port, read_entries, Entry,
}
use zettahealthonramp.PermitOpen.Decimal.{decimal, IsDigit, read_port-decimal, decimal-IsDigit}

-- A pair as a user writes it.
pub data PortSpec : Type 0 where
  any_port : PortSpec
  number : ℕ → PortSpec

pub record Pair : Type 0 where
  pub name : Text
  pub spec : PortSpec

unfoldable pub print_port : PortSpec → Text
print_port any_port = b'*' ∷ []
print_port (number n) = decimal n

unfoldable pub print_pair : Pair → Text
print_pair p = p.name ++ (b':' ∷ print_port p.spec)

-- Each pair with a comma behind it, and then `rest`.
unfoldable pub print_pairs : List Pair → Text → Text
print_pairs [] rest = rest
print_pairs (p ∷ ps) rest = p.name ++ (b':' ∷ (print_port p.spec ++ (b',' ∷ print_pairs ps rest)))

-- The port that the daemon keeps for it.
abbrev pub stored_port : PortSpec → ℕ
stored_port any_port = 0
stored_port (number n) = n % 2 ^ 16

abbrev pub entry : Pair → Entry
entry p = record { host = p.name; port = stored_port p.spec }

abbrev pub is_host_byte : ℕ → Bool
is_host_byte c = not (c == 0 || is_separator c || is_quote c)

abbrev pub IsHostByte : ℕ → Type 0
IsHostByte c = is_host_byte c ≡ true

abbrev pub FitsLong : PortSpec → Type 0
FitsLong any_port = Unit
FitsLong (number n) = n ≤ long_max

abbrev pub IsPair : Pair → Type 0
IsPair p = All IsHostByte p.name × FitsLong p.spec

unfoldable pub cut : ℕ → ℕ
cut c = if is_separator c then 0 else c

unfoldable pub colons : Text → ℕ
colons [] = 0
colons (c ∷ s) = (if c == b':' then 1 else 0) + colons s

pub terminate-map : (s rest : Text) → terminate (length s) (s ++ rest) ≡ map cut s ++ rest
unfolding terminate cut
terminate-map [] rest = refl
terminate-map (c ∷ s) rest = ap (◌∷◌ (cut c)) (terminate-map s rest)

pub sep_count-colons : (s rest : Text) → sep_count (length s) (s ++ rest) ≡ colons s
unfolding sep_count colons
sep_count-colons [] rest = refl
sep_count-colons (c ∷ s) rest = ap (λ n. (if c == b':' then 1 else 0) + n) (sep_count-colons s rest)

pub colons-append : (s t : Text) → colons (s ++ t) ≡ colons s + colons t
unfolding colons
colons-append [] t = omega arith
colons-append (c ∷ s) t = omega (arith, colons-append s t)

map-append_cut : (s t : Text) → map cut (s ++ t) ≡ map cut s ++ map cut t
map-append_cut s t = map-append cut s t

pub map-cut_host : (s : Text) → All IsHostByte s → map cut s ≡ s
unfolding cut
map-cut_host [] h = refl
map-cut_host (c ∷ s) (hc, hs) = ground (arith, map-cut_host s hs)

pub colons_host : (s : Text) → All IsHostByte s → colons s ≡ 0
unfolding colons
colons_host [] h = refl
colons_host (c ∷ s) (hc, hs) = ground (arith, colons_host s hs)

pub host-Lacks : (s : Text) → All IsHostByte s → Lacks 0 s
host-Lacks [] h = tt
host-Lacks (c ∷ s) (hc, hs) = (ground arith, host-Lacks s hs)

digit_host : (s : Text) → All IsDigit s → All IsHostByte s
digit_host [] h = tt
digit_host (c ∷ s) (hc, hs) = (ground arith, digit_host s hs)

pub print_port_host : (p : PortSpec) → All IsHostByte (print_port p)
unfolding print_port
print_port_host any_port = (refl, tt)
print_port_host (number n) = digit_host (decimal n) (decimal-IsDigit n)

pub read_port-print_port :
    (p : PortSpec) → FitsLong p → read_port false (print_port p) ≡ some (stored_port p)
unfolding print_port
read_port-print_port any_port h = unfold read_port in refl
read_port-print_port (number n) h = read_port-decimal n h

-- The buffer of the pairs, with `rest` behind the last NUL.
unfoldable pub memory : List Pair → List ℕ → List ℕ
memory [] rest = rest
memory (p ∷ ps) rest = p.name ++ (0 ∷ (print_port p.spec ++ (0 ∷ memory ps rest)))

pub map-cut-print_pairs :
    (ps : List Pair) (rest : Text)
    → All IsPair ps
    → map cut (print_pairs ps rest) ≡ memory ps (map cut rest)
unfolding memory print_pairs cut
map-cut-print_pairs [] rest h = refl
map-cut-print_pairs (p ∷ ps) rest (hp, hps) = simp (
  map-append,
  map-cut_host p.name hp.0,
  map-cut_host (print_port p.spec) (print_port_host p.spec),
  map-cut-print_pairs ps rest hps,
)

pub colons-print_pairs :
    (ps : List Pair) (rest : Text)
    → All IsPair ps
    → colons (print_pairs ps rest) ≡ length ps + colons rest
unfolding print_pairs colons
colons-print_pairs [] rest h = omega arith
colons-print_pairs (p ∷ ps) rest (hp, hps) =
    let port = print_port p.spec in
    omega (
      arith,
      colons-append p.name (b':' ∷ (port ++ (b',' ∷ print_pairs ps rest))),
      colons-append port (b',' ∷ print_pairs ps rest),
      colons_host p.name hp.0,
      colons_host port (print_port_host p.spec),
      colons-print_pairs ps rest hps,
    )

pub memory-append : (ps : List Pair) (s t : List ℕ) → memory ps s ++ t ≡ memory ps (s ++ t)
unfolding memory
memory-append [] s t = refl
memory-append (p ∷ ps) s t = simp (append_assoc, memory-append ps s t)

abbrev pub prepend {ℓ} : {A : Type ℓ} → List A → Outcome (List A) → Outcome (List A)
prepend xs (ok ys) = ok (xs ++ ys)
prepend xs error = error
prepend xs fault = fault

pub prepend_nil {ℓ} : {A : Type ℓ} (r : Outcome (List A)) → prepend [] r ≡ r
prepend_nil (ok ys) = refl
prepend_nil error = refl
prepend_nil fault = refl

prepend-prepend {ℓ} :
    {A : Type ℓ} (xs ys : List A) (r : Outcome (List A))
    → prepend xs (prepend ys r) ≡ prepend (xs ++ ys) r
prepend-prepend xs ys (ok zs) = ap ok (sym (append_assoc xs ys zs))
prepend-prepend xs ys error = refl
prepend-prepend xs ys fault = refl

-- `>>=` with the pushing of one entry is `prepend`.
bind_prepend {ℓ} :
    {A : Type ℓ} (x : A) (r : Outcome (List A)) → (r >>= λ es. ok (x ∷ es)) ≡ prepend (x ∷ []) r
bind_prepend x (ok es) = refl
bind_prepend x error = refl
bind_prepend x fault = refl

suc-add : (m n : ℕ) → suc m + n ≡ suc (m + n)
suc-add m n = omega arith

pub read_entries-pair :
    (p : Pair) (n : ℕ) (rest : List ℕ)
    → IsPair p
    → read_entries false (suc n) (p.name ++ (0 ∷ (print_port p.spec ++ (0 ∷ rest))))
      ≡ prepend (entry p ∷ []) (read_entries false n rest)
unfolding read_entries
read_entries-pair p n rest (hh, hl) =
    rw
      (
        c_str-append p.name _ (host-Lacks p.name hh),
        c_str-append (print_port p.spec) rest (host-Lacks _ (print_port_host p.spec)),
        read_port-print_port p.spec hl,
      )
      (bind_prepend _ _)

pub read_entries-memory :
    (ps : List Pair) (n : ℕ) (rest : List ℕ)
    → All IsPair ps
    → read_entries false (length ps + n) (memory ps rest)
      ≡ prepend (map entry ps) (read_entries false n rest)
unfolding memory
read_entries-memory [] n rest h = rw zero-add (sym (prepend_nil _))
read_entries-memory (p ∷ ps) n rest (hp, hps) =
    ap (λ k. read_entries false k (memory (p ∷ ps) rest)) (suc-add (length ps) n)
    ∙ read_entries-pair p (length ps + n) (memory ps rest) hp
    ∙ ap (prepend (entry p ∷ [])) (read_entries-memory ps n rest hps)
    ∙ prepend-prepend (entry p ∷ []) (map entry ps) _
