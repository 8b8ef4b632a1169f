-- ===== src/PermitOpen/Reference.antt =====
-- packages/c/sshnpd/src/permitopen.c against a parser that marks no buffer: it splits the list at its
-- separators, and takes the parts two by two.
pub mod Agrees
pub mod Tests
use zettahealthonramp.Base.{
  ℕ, zero, suc, ◌≡◌, refl, ap, inl, inr, Bool, not, List, [], ◌∷◌, ◌++◌, map, if◌then◌else◌,
  Bool-cases, Text, All, ◌>>=◌, c_str, Lacks, c_str-append, Outcome, ok, error, fault,
}
use zettahealthonramp.PermitOpen.{
  is_quote, is_separator, read_port, or_error, read_entries, Entry, Env,
}
use zettahealthonramp.PermitOpen.Buffer.{cut, colons}

-- The first part, and those behind it.
unfoldable pub fields : Text → Text × List Text
fields [] = ([], [])
fields (c ∷ s) = let r = fields s in if is_separator c then ([], r.0 ∷ r.1) else (c ∷ r.0, r.1)

-- Two parts for each colon: a host and a port.
unfoldable pub pairs : Bool → ℕ → List Text → Outcome (List Entry)
pairs stale zero parts = ok []
pairs stale (suc n) [] = fault
pairs stale (suc n) (host ∷ []) = fault
pairs stale (suc n) (host ∷ port ∷ parts) = do
  port_number ← or_error (read_port stale port)
  entries ← pairs stale n parts
  ok (record { host = host; port = port_number } ∷ entries)

abbrev pub allocated_pairs : Env → ℕ → List Text → Outcome (List Entry)
allocated_pairs env zero parts = if env.hosts_allocated then ok [] else error
allocated_pairs env (suc n) parts =
    if not env.hosts_allocated
    then error
    else if env.ports_allocated
    then pairs env.errno_is_erange (suc n) parts
    else fault

unfoldable pub unquoted : Text → Text
unquoted [] = []
unquoted (c ∷ s) = if is_quote c then unquoted s else c ∷ s

-- The list behind its leading quotes; with nothing else the trimming leaves its buffer.
unfoldable pub split_permitopen : Env → Text → Outcome (List Entry)
unfolding unquoted
split_permitopen env input = elim (unquoted input) [
  | [] ↦ fault
  | c ∷ s ↦ allocated_pairs env (colons (c ∷ s)) ((fields (c ∷ s)).0 ∷ (fields (c ∷ s)).1)
]

-- The parts in memory, each with its NUL.
abbrev pub joined : List Text → List ℕ
joined [] = []
joined (f ∷ fs) = f ++ 0 ∷ joined fs

pub joined-fields : (s : Text) → joined ((fields s).0 ∷ (fields s).1) ≡ map cut s ++ 0 ∷ []
unfolding fields cut
joined-fields [] = refl
joined-fields (c ∷ s) = elim (Bool-cases (is_separator c)) [
  | inl sep ↦ rw sep (ap (λ t. 0 ∷ t) (joined-fields s))
  | inr plain ↦ rw plain (ap (λ t. c ∷ t) (joined-fields s))
]

pub fields-Lacks : (s : Text) → Lacks 0 s → All (Lacks 0) ((fields s).0 ∷ (fields s).1)
unfolding fields
fields-Lacks [] h = (tt, tt)
fields-Lacks (c ∷ s) (hc, hs) = elim (Bool-cases (is_separator c)) [
  | inl sep ↦ rw sep (tt, fields-Lacks s hs)
  | inr plain ↦ let (first, rest) = fields-Lacks s hs in rw plain ((hc, first), rest)
]

pub read_entries-joined :
    (stale : Bool) (n : ℕ) (parts : List Text)
    → All (Lacks 0) parts
    → read_entries stale n (joined parts) ≡ pairs stale n parts
unfolding read_entries pairs
read_entries-joined stale zero parts h = refl
read_entries-joined stale (suc n) [] h = unfold c_str in refl
read_entries-joined stale (suc n) (host ∷ []) (hh, _) =
    rw (c_str-append host [] hh) (unfold c_str in refl)
read_entries-joined stale (suc n) (host ∷ port ∷ parts) (hh, (hp, hs)) =
    rw (c_str-append host _ hh, c_str-append port _ hp, read_entries-joined stale n parts hs) refl
