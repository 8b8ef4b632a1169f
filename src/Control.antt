-- ===== src/Control.antt =====
-- packages/c/srv/src/srv.c: the control channel of the multi-session daemon side. A request is a
-- line `connect:<key>:<iv>`.
pub mod Tokens
pub mod Messages
pub mod Fuel
use zettahealthonramp.Base.{
  ℕ, zero, suc, Bool, ◌||◌, Option, none, some, List, [], ◌∷◌, ◌==◌, if◌then◌else◌, Text, length,
  ◌>>=◌, Outcome, ok, error, fault,
}

-- `strtok_r(s, delim, &save)` with one delimiter: the bytes that it skips, the token, and `save`.
pub skip_delims : ℕ → Text → Text
skip_delims d [] = []
skip_delims d (c ∷ s) = if c == d then skip_delims d s else c ∷ s

pub token : ℕ → Text → Text
token d [] = []
token d (c ∷ s) = if c == d then [] else c ∷ token d s

pub after_token : ℕ → Text → Text
after_token d [] = []
after_token d (c ∷ s) = if c == d then s else after_token d s

pub strtok_from : ℕ → Text → Option (Text × Text)
unfolding token after_token
strtok_from d [] = none
strtok_from d (c ∷ t) = some (token d (c ∷ t), after_token d (c ∷ t))

unfoldable pub strtok : ℕ → Text → Option (Text × Text)
unfolding skip_delims strtok_from
strtok d s = strtok_from d (skip_delims d s)

-- The loop of `process_multiple_requests`; `allocated n` says whether the `realloc` for the
-- request number `n` succeeds. Each round takes a byte at least, so the length is fuel enough.
pub collect : (ℕ → Bool) → ℕ → ℕ → Text → Outcome (List Text)
unfolding strtok
collect allocated count zero s = ok []
collect allocated count (suc fuel) s = elim (strtok b'\n' s) [
  | none ↦ ok []
  | some r ↦
      if allocated count
      then (collect allocated (suc count) fuel r.1 >>= λ rest. ok (r.0 ∷ rest))
      else error
]

unfoldable pub process_multiple_requests : (ℕ → Bool) → Text → Outcome (List Text)
unfolding collect
process_multiple_requests allocated s = collect allocated 0 (suc (length s)) s

abbrev pub is_blank : ℕ → Bool
is_blank c = c == b' ' || c == b'\n'

pub skip_blanks : Text → Text
skip_blanks [] = []
skip_blanks (c ∷ s) = if is_blank c then skip_blanks s else c ∷ s

-- One trailing blank becomes the NUL. The loop's test then reads that NUL, so it makes one round.
pub cut_last : Text → Text
cut_last [] = []
cut_last (c ∷ []) = if is_blank c then [] else c ∷ []
cut_last (c ∷ d ∷ s) = c ∷ cut_last (d ∷ s)

-- The index of the last byte of an empty text is the byte before it: a skipped blank, or, if the
-- message was empty, a byte before the buffer.
pub trim : Text → Outcome Text
unfolding skip_blanks cut_last
trim [] = fault
trim (c ∷ s) = ok (cut_last (skip_blanks (c ∷ s)))

pub record Message : Type 0 where
  pub message_type : Text
  pub aes_key : Text
  pub aes_iv : Text

abbrev pub or_error {ℓ} : {A : Type ℓ} → Option A → Outcome A
or_error none = error
or_error (some a) = ok a

unfoldable pub parse_control_message : Text → Outcome Message
unfolding strtok trim
parse_control_message original = do
  s ← trim original
  t ← or_error (strtok b':' s)
  k ← or_error (strtok b':' t.1)
  v ← or_error (strtok b':' k.1)
  ok (record { message_type = t.0; aes_key = k.0; aes_iv = v.0 })
