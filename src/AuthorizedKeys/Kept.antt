-- ===== src/AuthorizedKeys/Kept.antt =====
-- packages/c/sshnpd/src/file_utils.c: the keys that are in the file stay there, and a key is added once.
use zettahealthonramp.Base.{
  ℕ, ◌≡◌, refl, sym, ap, subst, ◌∙◌, ◌⊎◌, inl, inr, Bool, true, false, [], ◌∷◌, ◌++◌, append-nil,
  append_assoc, arith, Bool-cases, Text, take, All-append, ◌>>=◌, Lacks, Outcome, ok, error, fault,
}
use zettahealthonramp.Code.{is_zero, success, failure, ℤ}
use zettahealthonramp.AuthorizedKeys.{
  lines, some_line, ends_line, postfix, entry, append_entry, authorize_ssh_public_key, FileAnswers,
}
use zettahealthonramp.AuthorizedKeys.Added.{Within, some_line_found, added-found}

-- Nothing in front is lost, and a code of 0 means that the key is in the file.
abbrev pub Authorises : Text → Text → Outcome (ℤ × Text) → Type 0
Authorises contents key error = Unit
Authorises contents key fault = Unit
Authorises contents key (ok r) =
    ((rest : Text) × (r.1 ≡ contents ++ rest)) × ((is_zero r.0 ≡ false) ⊎ Within key r.1)

unchanged-Authorises :
    (contents key : Text) (c : ℤ) → is_zero c ≡ false → Authorises contents key (ok (c, contents))
unchanged-Authorises contents key c h = (([], sym (append-nil contents)), inl h)

entry-Within :
    (permissions key : Text) (newline : Bool) → Within key (entry permissions key newline)
entry-Within [] key newline = ([], postfix newline, refl)
entry-Within (p ∷ permissions) key newline = (
  (p ∷ permissions) ++ b' ' ∷ [],
  postfix newline,
  sym (append_assoc (p ∷ permissions) (b' ' ∷ []) (key ++ postfix newline)),
)

module _ (w : FileAnswers) (contents : Text) where
  append_entry-Authorises :
      (key text : Text) → Within key text → Authorises contents key (append_entry w contents text)
  unfolding append_entry
  append_entry-Authorises key text (a, b, is) = elim (Bool-cases w.prints) [
    | inr failed ↦ rw failed ((take w.kept text, refl), inl refl)
    | inl printed ↦ elim (Bool-cases (is_zero w.flush)) [
      | inr kept ↦ rw (printed, kept) ((take w.kept text, refl), inl kept)
      | inl flushed ↦
          rw (printed, flushed) ((text, refl), inr (contents ++ a, b, rw (is, append_assoc) refl))
    ]
  ]

  marked-Authorises :
      (permissions key : Text) (newline : Outcome Bool)
      → Authorises contents key (newline >>= λ n. append_entry w contents (entry permissions key n))
  marked-Authorises permissions key (ok n) =
      append_entry-Authorises key (entry permissions key n) (entry-Within permissions key n)
  marked-Authorises permissions key error = tt
  marked-Authorises permissions key fault = tt

  -- A property of what is answered: in the failures, if the key is found, and if it is added.
  authorize_cases :
      (permissions key : Text) (P : Outcome (ℤ × Text) → Type 0)
      → P fault
      → ((c : ℤ) → is_zero c ≡ false → P (ok (c, contents)))
      → (some_line key (lines [] contents) ≡ true → P (ok (success, contents)))
      → P (ends_line key >>= λ n. append_entry w contents (entry permissions key n))
      → P (authorize_ssh_public_key w contents permissions key)
  unfolding authorize_ssh_public_key
  authorize_cases permissions key P crashed failed there added = elim (Bool-cases w.reopens) [
    | inr closed ↦ rw closed crashed
    | inl opened ↦ elim (Bool-cases (is_zero w.seek_start)) [
      | inr lost ↦ rw (opened, lost) (failed w.seek_start lost)
      | inl start ↦ elim (Bool-cases w.buffer_allocated) [
        | inr out ↦ rw (opened, start, out) (failed failure refl)
        | inl buffer ↦ elim (Bool-cases (some_line key (lines [] contents))) [
          | inl found ↦ rw (opened, start, buffer, found) (there found)
          | inr new ↦ elim (Bool-cases (is_zero w.seek_end)) [
            | inr lost ↦ rw (opened, start, buffer, new, lost) (failed w.seek_end lost)
            | inl end ↦ rw (opened, start, buffer, new, end) added
          ]
        ]
      ]
    ]
  ]

  authorised :
      (permissions key : Text)
      → Authorises contents key (authorize_ssh_public_key w contents permissions key)
  authorised permissions key =
      authorize_cases permissions key (Authorises contents key) tt
        (unchanged-Authorises contents key)
        (λ found. (([], sym (append-nil contents)), inr (some_line_found key [] contents found)))
        (marked-Authorises permissions key (ends_line key))

  -- Whatever the C library answers, what was in the file of authorized keys stays in front, and if the
  -- answer is 0, the key is in the file.
  pub authorize_ssh_public_key-Authorises :
      (permissions key file : Text) (c : ℤ)
      → authorize_ssh_public_key w contents permissions key ≡ ok (c, file)
      → ((rest : Text) × (file ≡ contents ++ rest)) × ((is_zero c ≡ false) ⊎ Within key file)
  authorize_ssh_public_key-Authorises permissions key file c h =
      subst (Authorises contents key) h (authorised permissions key)

-- Whether a key is on a line of the file, unless there was a failure.
abbrev Finds : Text → Outcome (ℤ × Text) → Type 0
Finds key error = Unit
Finds key fault = Unit
Finds key (ok r) = (is_zero r.0 ≡ false) ⊎ (some_line key (lines [] r.1) ≡ true)

-- A text that stands on one line.
abbrev pub IsLine : Text → Type 0
IsLine t = Lacks 0 t × Lacks b'\n' t

ends_line-IsLine : (c : ℕ) (s : Text) → Lacks b'\n' (c ∷ s) → ends_line (c ∷ s) ≡ ok false
unfolding ends_line
ends_line-IsLine c [] (hc, h) = ground arith
ends_line-IsLine c (d ∷ s) (hc, h) = ends_line-IsLine d s h

entry_found :
    (contents permissions key : Text)
    → Lacks 0 contents
    → IsLine permissions
    → IsLine key
    → some_line key (lines [] (contents ++ entry permissions key false)) ≡ true
entry_found contents [] key hc hp (zero_free, line) =
    added-found [] contents [] key tt hc tt zero_free tt line
entry_found contents (p ∷ permissions) key hc (hp, np) (hk, nk) =
    ap (λ t. some_line key (lines [] (contents ++ t)))
      (sym (
        append_assoc ((p ∷ permissions) ++ b' ' ∷ []) key (b'\n' ∷ [])
        ∙ append_assoc (p ∷ permissions) (b' ' ∷ []) (key ++ b'\n' ∷ [])))
    ∙ added-found [] contents ((p ∷ permissions) ++ b' ' ∷ []) key tt hc
        (All-append _ (p ∷ permissions) _ hp (omega arith, tt)) hk
        (All-append _ (p ∷ permissions) _ np (omega arith, tt)) nk

module _ (w : FileAnswers) (contents permissions : Text) (c : ℕ) (s : Text) where
  added-Finds :
      Lacks 0 contents
      → IsLine permissions
      → IsLine (c ∷ s)
      → Finds (c ∷ s) (append_entry w contents (entry permissions (c ∷ s) false))
  unfolding append_entry
  added-Finds hc hp hk = elim (Bool-cases w.prints) [
    | inr failed ↦ rw failed (inl refl)
    | inl printed ↦ elim (Bool-cases (is_zero w.flush)) [
      | inr kept ↦ rw (printed, kept) (inl kept)
      | inl flushed ↦
          rw (printed, flushed) (inr (entry_found contents permissions (c ∷ s) hc hp hk))
    ]
  ]

  authorised-Finds :
      Lacks 0 contents
      → IsLine permissions
      → IsLine (c ∷ s)
      → Finds (c ∷ s) (authorize_ssh_public_key w contents permissions (c ∷ s))
  authorised-Finds hc hp hk =
      authorize_cases w contents permissions (c ∷ s) (Finds (c ∷ s)) tt (λ code bad. inl bad) inr
        (rw (ends_line-IsLine c s hk.1) (added-Finds hc hp hk))

authorize_again :
    (w : FileAnswers) (contents permissions key : Text)
    → w.reopens ≡ true
    → is_zero w.seek_start ≡ true
    → w.buffer_allocated ≡ true
    → some_line key (lines [] contents) ≡ true
    → authorize_ssh_public_key w contents permissions key ≡ ok (success, contents)
unfolding authorize_ssh_public_key
authorize_again w contents permissions key opened start buffer found =
    rw (opened, start, buffer, found) refl

found_of : (key file : Text) → Finds key (ok (success, file)) → some_line key (lines [] file) ≡ true
found_of key file (inl bad) = absurd (ground arith)
found_of key file (inr found) = found

-- If a key of one line was authorized with the answer 0, then authorizing it again, with any
-- permissions, answers 0 and leaves the file as it is, provided that the file can be opened and read.
-- The file and the texts hold no NUL, and the permissions of the first time are on one line.
pub authorize_ssh_public_key_twice :
    (v w : FileAnswers) (contents permissions again : Text) (c : ℕ) (s file : Text)
    → Lacks 0 contents
    → IsLine permissions
    → IsLine (c ∷ s)
    → authorize_ssh_public_key v contents permissions (c ∷ s) ≡ ok (success, file)
    → w.reopens ≡ true
    → is_zero w.seek_start ≡ true
    → w.buffer_allocated ≡ true
    → authorize_ssh_public_key w file again (c ∷ s) ≡ ok (success, file)
authorize_ssh_public_key_twice v w contents permissions again c s file hc hp hk h opened start
      buffer =
    authorize_again w file again (c ∷ s) opened start buffer (
      found_of (c ∷ s) file
        (subst (Finds (c ∷ s)) h (authorised-Finds v contents permissions c s hc hp hk)))
