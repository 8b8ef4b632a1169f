-- ===== src/AuthorizedKeys/Added.antt =====
-- packages/c/sshnpd/src/file_utils.c: what becomes of the file of authorized keys.
use zettahealthonramp.Base.{
  ℕ, ◌≡◌, refl, sym, ap, subst, ◌∙◌, ◌⊎◌, inl, inr, true, false, ◌||◌, some, List, [], ◌∷◌, ◌++◌,
  append_assoc, arith, ◌==◌, Bool-cases, Option-cases, is_some, Text, All-append, Lacks,
}
use zettahealthonramp.Daemon.{strip, strstr}
use zettahealthonramp.Daemon.Keys.{strip-append}
use zettahealthonramp.AuthorizedKeys.{last_line, lines, until_nul, some_line}

-- A text stands somewhere within another.
abbrev pub Within : Text → Text → Type 0
Within key s = (a : Text) × (b : Text) × (s ≡ a ++ (key ++ b))

strip_found : (key s r : Text) → strip key s ≡ some r → s ≡ key ++ r
unfolding strip
strip_found [] s r h = ground arith
strip_found (c ∷ key) [] r h = absurd (ground arith)
strip_found (c ∷ key) (d ∷ s) r h = ground (arith, strip_found key s r)

strstr_found : (key s : Text) → is_some (strstr key s) ≡ true → Within key s
unfolding strstr
strstr_found key [] h = elim (Option-cases (strip key [])) [
  | inl out ↦ absurd (ground (arith, out))
  | inr (r, is) ↦ ([], r, strip_found key [] r is)
]
strstr_found key (c ∷ s) h = elim (Option-cases (strip key (c ∷ s))) [
  | inr (r, is) ↦ ([], r, strip_found key (c ∷ s) r is)
  | inl out ↦ elim (Option-cases (strstr key s)) [
    | inl later_out ↦ absurd (ground (arith, out, later_out))
    | inr (k, is) ↦ let (a, b, e) = strstr_found key s (rw is refl) in (c ∷ a, b, ap (λ t. c ∷ t) e)
  ]
]

strstr_stripped : (key s : Text) → is_some (strip key s) ≡ true → is_some (strstr key s) ≡ true
unfolding strstr
strstr_stripped key [] h = ground arith
strstr_stripped key (c ∷ s) h = ground arith

strstr-start : (key b : Text) → is_some (strstr key (key ++ b)) ≡ true
strstr-start key b = strstr_stripped key (key ++ b) (ap is_some (strip-append key b))

strstr-later :
    (key s : Text) (c : ℕ) → is_some (strstr key s) ≡ true → is_some (strstr key (c ∷ s)) ≡ true
unfolding strstr
strstr-later key s c h = ground arith

strstr-Within : (a key b : Text) → is_some (strstr key (a ++ (key ++ b))) ≡ true
strstr-Within [] key b = strstr-start key b
strstr-Within (c ∷ a) key b = strstr-later key (a ++ (key ++ b)) c (strstr-Within a key b)

until_nul-Lacks : (t : Text) → Lacks 0 t → until_nul t ≡ t
unfolding until_nul
until_nul-Lacks [] h = refl
until_nul-Lacks (c ∷ t) (hc, ht) = ground (arith, until_nul-Lacks t ht)

until_nul-prefix : (t : Text) → (rest : Text) × (t ≡ until_nul t ++ rest)
unfolding until_nul
until_nul-prefix [] = ([], refl)
until_nul-prefix (c ∷ t) = elim (Bool-cases (c == 0)) [
  | inl nul ↦ rw nul (c ∷ t, refl)
  | inr other ↦ let (rest, e) = until_nul-prefix t in rw other (rest, ap (λ s. c ∷ s) e)
]

Within-append : (key s rest : Text) → Within key s → Within key (s ++ rest)
Within-append key s rest (a, b, e) = (a, b ++ rest, rw (e, append_assoc, append_assoc) refl)

Within-behind : (key before s : Text) → Within key s → Within key (before ++ s)
Within-behind key before s (a, b, e) = (before ++ a, b, rw (e, append_assoc) refl)

line_found : (key line : Text) → is_some (strstr key (until_nul line)) ≡ true → Within key line
line_found key line h =
    let (rest, e) = until_nul-prefix line in
    subst (Within key) (sym e)
      (Within-append key (until_nul line) rest (strstr_found key (until_nul line) h))

lines_end : (acc : Text) → lines acc [] ≡ last_line acc
unfolding lines
lines_end acc = refl

lines_ended :
    (acc s : Text) (c : ℕ) → (c == b'\n') ≡ true → lines acc (c ∷ s) ≡ (acc ++ c ∷ []) ∷ lines [] s
unfolding lines
lines_ended acc s c h = rw h refl

lines_longer :
    (acc s : Text) (c : ℕ) → (c == b'\n') ≡ false → lines acc (c ∷ s) ≡ lines (acc ++ c ∷ []) s
unfolding lines
lines_longer acc s c h = rw h refl

some_line-cons :
    (key line : Text) (rest : List Text)
    → some_line key (line ∷ rest) ≡ true
    → Within key line ⊎ (some_line key rest ≡ true)
unfolding some_line
some_line-cons key line rest h = elim (Bool-cases (is_some (strstr key (until_nul line)))) [
  | inl here ↦ inl (line_found key line here)
  | inr elsewhere ↦ inr (sym (ap (λ b. b || some_line key rest) elsewhere) ∙ h)
]

some_line-nil : (key : Text) → some_line key [] ≡ true → ⊥
unfolding some_line
some_line-nil key h = cc

-- A key that is found on a line is in the file.
pub some_line_found :
    (key acc s : Text) → some_line key (lines acc s) ≡ true → Within key (acc ++ s)
some_line_found key [] [] h =
    absurd (some_line-nil key (sym (ap (some_line key) (lines_end [])) ∙ h))
some_line_found key (a ∷ acc) [] h =
    elim (some_line-cons key (a ∷ acc) [] (sym (ap (some_line key) (lines_end (a ∷ acc))) ∙ h)) [
      | inl here ↦ Within-append key (a ∷ acc) [] here
      | inr elsewhere ↦ absurd (some_line-nil key elsewhere)
    ]
some_line_found key acc (c ∷ s) h = elim (Bool-cases (c == b'\n')) [
  | inl ended ↦
      elim (some_line-cons key (acc ++ c ∷ []) (lines [] s)
        (sym (ap (some_line key) (lines_ended acc s c ended)) ∙ h)) [
          | inl here ↦
              subst (Within key) (append_assoc acc (c ∷ []) s)
                (Within-append key (acc ++ c ∷ []) s here)
          | inr elsewhere ↦
              subst (Within key) (append_assoc acc (c ∷ []) s)
                (Within-behind key (acc ++ c ∷ []) s (some_line_found key [] s elsewhere))
        ]
  | inr longer ↦ subst (Within key) (append_assoc acc (c ∷ []) s) (
      some_line_found key (acc ++ c ∷ []) s
        (sym (ap (some_line key) (lines_longer acc s c longer)) ∙ h))
]

-- Text that lacks a newline, with a newline behind it, is the rest of a line.
lines-whole :
    (acc z : Text) → Lacks b'\n' z → lines acc (z ++ b'\n' ∷ []) ≡ (acc ++ (z ++ b'\n' ∷ [])) ∷ []
lines-whole acc [] h =
    lines_ended acc [] b'\n' refl ∙ ap (λ l. (acc ++ b'\n' ∷ []) ∷ l) (lines_end [])
lines-whole acc (c ∷ z) (hc, hz) =
    lines_longer acc (z ++ b'\n' ∷ []) c (ground arith)
    ∙ lines-whole (acc ++ c ∷ []) z hz
    ∙ ap (λ t. t ∷ []) (append_assoc acc (c ∷ []) (z ++ b'\n' ∷ []))

some_line-here :
    (key line : Text) (rest : List Text)
    → is_some (strstr key (until_nul line)) ≡ true
    → some_line key (line ∷ rest) ≡ true
unfolding some_line
some_line-here key line rest h = rw h refl

some_line-later :
    (key line : Text) (rest : List Text)
    → some_line key rest ≡ true
    → some_line key (line ∷ rest) ≡ true
unfolding some_line
some_line-later key line rest h = ground arith

-- A key at the end of a line is found on it.
line-finds :
    (acc x key : Text)
    → Lacks 0 acc
    → Lacks 0 x
    → Lacks 0 key
    → is_some (strstr key (until_nul (acc ++ (x ++ key ++ b'\n' ∷ [])))) ≡ true
line-finds acc x key ha hx hk =
    ap (λ t. is_some (strstr key t))
      (until_nul-Lacks (acc ++ (x ++ key ++ b'\n' ∷ [])) (
          All-append _ acc _ ha
            (All-append _ (x ++ key) _ (All-append _ x key hx hk) (omega arith, tt)))
        ∙ ap (λ t. acc ++ t) (append_assoc x key (b'\n' ∷ []))
        ∙ sym (append_assoc acc x (key ++ b'\n' ∷ [])))
    ∙ strstr-Within (acc ++ x) key (b'\n' ∷ [])

-- A line that ends with the key, behind any contents, is found.
pub added-found :
    (acc c x key : Text)
    → Lacks 0 acc
    → Lacks 0 c
    → Lacks 0 x
    → Lacks 0 key
    → Lacks b'\n' x
    → Lacks b'\n' key
    → some_line key (lines acc (c ++ (x ++ key ++ b'\n' ∷ []))) ≡ true
added-found acc [] x key ha hc hx hk nx nk =
    ap (some_line key) (lines-whole acc (x ++ key) (All-append _ x key nx nk))
    ∙ some_line-here key (acc ++ (x ++ key ++ b'\n' ∷ [])) [] (line-finds acc x key ha hx hk)
added-found acc (d ∷ c) x key ha (hd, hc) hx hk nx nk = elim (Bool-cases (d == b'\n')) [
  | inl ended ↦
      ap (some_line key) (lines_ended acc _ d ended)
      ∙ some_line-later key (acc ++ d ∷ []) _ (added-found [] c x key tt hc hx hk nx nk)
  | inr longer ↦
      ap (some_line key) (lines_longer acc _ d longer)
      ∙ added-found (acc ++ d ∷ []) c x key (All-append _ acc _ ha (hd, tt)) hc hx hk nx nk
]
