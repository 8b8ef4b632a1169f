-- ===== src/Control/Messages.antt =====
-- One request of the control channel.
use zettahealthonramp.Base.{
  ℕ, ◌≡◌, refl, sym, ap, ◌∙◌, ◌≢◌, true, false, [], ◌∷◌, ◌++◌, append-nil, arith, Text, All, ok,
  error,
}
use zettahealthonramp.Control.{
  is_blank, skip_blanks, cut_last, trim, parse_control_message, Message,
}
use zettahealthonramp.Control.Tokens.{IsToken, strtok-append, strtok_end}

-- A field of a request: a token that starts and ends with no blank.
abbrev pub IsSolid : ℕ → Type 0
IsSolid c = is_blank c ≡ false

abbrev pub StartsSolid : Text → Type 0
StartsSolid [] = ⊥
StartsSolid (c ∷ s) = IsSolid c

abbrev pub EndsSolid : Text → Type 0
EndsSolid [] = ⊥
EndsSolid (c ∷ []) = IsSolid c
EndsSolid (c ∷ d ∷ s) = EndsSolid (d ∷ s)

abbrev pub Blank : ℕ → Type 0
Blank c = is_blank c ≡ true

unfoldable pub print_message : Message → Text
print_message m = m.message_type ++ b':' ∷ (m.aes_key ++ b':' ∷ m.aes_iv)

pub record IsMessage (m : Message) : Type 0 where
  pub type_is_token : IsToken b':' m.message_type
  pub key_is_token : IsToken b':' m.aes_key
  pub iv_is_token : IsToken b':' m.aes_iv
  pub starts_solid : StartsSolid m.message_type

skip_blanks-append : (b s : Text) → All Blank b → StartsSolid s → skip_blanks (b ++ s) ≡ s
unfolding skip_blanks
skip_blanks-append [] [] h p = absurd p
skip_blanks-append [] (c ∷ s) h p = ground arith
skip_blanks-append (x ∷ b) s (hx, hb) p = rw (hx, skip_blanks-append b s hb p)

cut_last-solid : (s : Text) → EndsSolid s → cut_last s ≡ s
unfolding cut_last
cut_last-solid [] h = refl
cut_last-solid (c ∷ []) h = rw h
cut_last-solid (c ∷ d ∷ s) h = ap (◌∷◌ c) (cut_last-solid (d ∷ s) h)

cut_last-Blank : (s : Text) (b : ℕ) → Blank b → cut_last (s ++ b ∷ []) ≡ s
unfolding cut_last
cut_last-Blank [] b h = rw h
cut_last-Blank (c ∷ []) b h = rw h
cut_last-Blank (c ∷ d ∷ s) b h = ap (◌∷◌ c) (cut_last-Blank (d ∷ s) b h)

StartsSolid-append : (s t : Text) → StartsSolid s → StartsSolid (s ++ t)
StartsSolid-append [] t p = absurd p
StartsSolid-append (c ∷ s) t p = p

EndsSolid-append : (s : Text) (c : ℕ) (t : Text) → EndsSolid (c ∷ t) → EndsSolid (s ++ c ∷ t)
EndsSolid-append [] c t h = h
EndsSolid-append (x ∷ []) c t h = h
EndsSolid-append (x ∷ y ∷ s) c t h = EndsSolid-append (y ∷ s) c t h

EndsSolid-cons : (c : ℕ) (s : Text) → EndsSolid s → EndsSolid (c ∷ s)
EndsSolid-cons c [] h = absurd h
EndsSolid-cons c (x ∷ s) h = h

trim_lem : (s : Text) → s ≢ [] → trim s ≡ ok (cut_last (skip_blanks s))
unfolding trim
trim_lem [] h = absurd (h refl)
trim_lem (c ∷ s) h = refl

append-ne-nil : (b s : Text) → s ≢ [] → b ++ s ≢ []
append-ne-nil [] s h = h
append-ne-nil (x ∷ b) s h = λ e. cc

StartsSolid-ne-nil : (s : Text) → StartsSolid s → s ≢ []
StartsSolid-ne-nil [] p e = p
StartsSolid-ne-nil (c ∷ s) p e = cc

trim-blanks : (b s : Text) → All Blank b → StartsSolid s → trim (b ++ s) ≡ ok (cut_last s)
trim-blanks b s hb hs =
    trim_lem (b ++ s) (append-ne-nil b s (StartsSolid-ne-nil s hs))
    ∙ ap (λ x. ok (cut_last x)) (skip_blanks-append b s hb hs)

-- The parser, once the trimming has left a text of the form of a request.
parse_trimmed :
    (s : Text) (m : Message)
    → IsMessage m
    → trim s ≡ ok (print_message m)
    → parse_control_message s ≡ ok m
unfolding parse_control_message print_message
parse_trimmed s m h e = rw (
  e,
  strtok-append b':' m.message_type (m.aes_key ++ b':' ∷ m.aes_iv) h.type_is_token,
  strtok-append b':' m.aes_key m.aes_iv h.key_is_token,
  strtok_end b':' m.aes_iv h.iv_is_token,
)

StartsSolid-print : (m : Message) (t : Text) → IsMessage m → StartsSolid (print_message m ++ t)
unfolding print_message
StartsSolid-print m t h =
    StartsSolid-append (print_message m) t (StartsSolid-append m.message_type _ h.starts_solid)

EndsSolid-print : (m : Message) → IsMessage m → EndsSolid m.aes_iv → EndsSolid (print_message m)
unfolding print_message
EndsSolid-print m h p =
    let tail = m.aes_key ++ b':' ∷ m.aes_iv in
    EndsSolid-append m.message_type b':' tail (
      EndsSolid-cons b':' tail
        (EndsSolid-append m.aes_key b':' m.aes_iv (EndsSolid-cons b':' m.aes_iv p)))

-- A request `type:key:iv`, behind any number of blanks, is read back.
pub parse_control_message-print_message :
    (b : Text) (m : Message)
    → All Blank b
    → IsMessage m
    → EndsSolid m.aes_iv
    → parse_control_message (b ++ print_message m) ≡ ok m
parse_control_message-print_message b m hb hm p = parse_trimmed _ m hm (
    ap (λ s. trim (b ++ s)) (sym (append-nil (print_message m)))
    ∙ trim-blanks b (print_message m ++ []) hb (StartsSolid-print m [] hm)
    ∙ ap (λ s. ok (cut_last s)) (append-nil (print_message m))
    ∙ ap ok (cut_last-solid (print_message m) (EndsSolid-print m hm p)))

-- Of one blank behind a request nothing is left, behind blanks in front or none; the iv is kept as
-- it is, also where it ends in blanks itself.
parse_control_message_trailing :
    (b : Text) (m : Message) (c : ℕ)
    → All Blank b
    → IsMessage m
    → Blank c
    → parse_control_message (b ++ (print_message m ++ c ∷ [])) ≡ ok m
parse_control_message_trailing b m c hb hm hc = parse_trimmed _ m hm (
    trim-blanks b (print_message m ++ c ∷ []) hb (StartsSolid-print m (c ∷ []) hm)
    ∙ ap ok (cut_last-Blank (print_message m) c hc))

trim-solid : (s : Text) → StartsSolid s → EndsSolid s → trim s ≡ ok s
trim-solid s hs he = trim-blanks [] s tt hs ∙ ap ok (cut_last-solid s he)

-- A request that stops in its key is refused.
pub parse_control_message_cut :
    (t k : Text)
    → IsToken b':' t
    → IsToken b':' k
    → StartsSolid t
    → EndsSolid k
    → parse_control_message (t ++ b':' ∷ k) ≡ error
unfolding parse_control_message
parse_control_message_cut t k ht hk st ek =
    rw
      (
        trim-solid (t ++ b':' ∷ k) (StartsSolid-append t (b':' ∷ k) st)
            (EndsSolid-append t b':' k (EndsSolid-cons b':' k ek)),
        strtok-append b':' t k ht,
        strtok_end b':' k hk,
      )
      refl
