-- ===== src/Params/Managers.antt =====
-- The list of managers.
use zettahealthonramp.Base.{
  ℕ, suc, ◌+◌, ◌≡◌, refl, ap, ◌∙◌, ◌≢◌, Bool, true, false, some, List, [], ◌∷◌, ◌++◌, append-nil,
  arith, add-one, if◌then◌else◌, Text, length, take, All, Lacks,
}
use zettahealthonramp.Params.{
  sep_count, longer, next_item, starts_at, extend, scan, parse_managers, Scan,
}

-- An atSign: an '@', and no comma.
abbrev pub IsAtsign : Text → Type 0
IsAtsign [] = ⊥
IsAtsign (c ∷ s) = (c ≡ b'@') × Lacks b',' (c ∷ s)

-- `first` and the others, with commas between, and one more behind them if `closed`.
abbrev pub closing : Bool → Text
closing true = b',' ∷ []
closing false = []

pub print_managers : Text → List Text → Bool → Text
print_managers first [] closed = first ++ closing closed
print_managers first (m ∷ ms) closed = first ++ (b',' ∷ print_managers m ms closed)

Atsign-Lacks : (m : Text) → IsAtsign m → Lacks b',' m
Atsign-Lacks [] h = absurd h
Atsign-Lacks (c ∷ m) h = h.1

abbrev result : Text → List Text → Bool → Scan
result first ms closed = record { first = first; others = ms; trailing = closed }

abbrev before : Text → Scan → Scan
before t r = record r { first = t ++ r.first }

result_nil :
    (t : Text) (ms : List Text) (closed : Bool)
    → before t (result [] ms closed) ≡ result t ms closed
result_nil t ms closed = ap (λ x. result x ms closed) (append-nil t)

scan_cons : (c : ℕ) (s : Text) → scan (c ∷ s) ≡ extend c s (scan s)
unfolding scan
scan_cons c s = refl

extend_other : (c : ℕ) (s : Text) (r : Scan) → c ≢ b',' → extend c s (some r) ≡ some (longer c r)
unfolding extend
extend_other c s r h = ground arith

extend_comma :
    (s : Text) (r : Scan) → starts_at s ≡ true → extend b',' s (some r) ≡ some (next_item r)
unfolding extend
extend_comma [] r h = cc
extend_comma (c ∷ s) r h = rw h

scan-append :
    (t s : Text) (r : Scan) → Lacks b',' t → scan s ≡ some r → scan (t ++ s) ≡ some (before t r)
scan-append [] s r h e = e
scan-append (c ∷ t) s r (hc, ht) e =
    scan_cons c (t ++ s)
    ∙ ap (extend c (t ++ s)) (scan-append t s r ht e)
    ∙ extend_other c (t ++ s) (before t r) hc

scan-closing : (closed : Bool) → scan (closing closed) ≡ some (result [] [] closed)
unfolding scan
scan-closing true = refl
scan-closing false = refl

scan_comma :
    (s : Text) (r : Scan)
    → starts_at s ≡ true
    → scan s ≡ some r
    → scan (b',' ∷ s) ≡ some (next_item r)
scan_comma s r h e = scan_cons b',' s ∙ ap (extend b',' s) e ∙ extend_comma s r h

starts_at-append : (m s : Text) → IsAtsign m → starts_at (m ++ s) ≡ true
starts_at-append [] s h = absurd h
starts_at-append (c ∷ m) s h = ground arith

starts_at-print_managers :
    (m : Text) (ms : List Text) (closed : Bool)
    → IsAtsign m
    → starts_at (print_managers m ms closed) ≡ true
unfolding print_managers
starts_at-print_managers m [] closed h = starts_at-append m _ h
starts_at-print_managers m (n ∷ ms) closed h = starts_at-append m _ h

scan-print_managers :
    (first : Text) (ms : List Text) (closed : Bool)
    → Lacks b',' first
    → All IsAtsign ms
    → scan (print_managers first ms closed) ≡ some (result first ms closed)
unfolding print_managers
scan-print_managers first [] closed h hs =
    scan-append first (closing closed) _ h (scan-closing closed)
    ∙ ap some (result_nil first [] closed)
scan-print_managers first (m ∷ ms) closed h (hm, hms) =
    scan-append first _ _ h (
      scan_comma _ _ (starts_at-print_managers m ms closed hm)
        (scan-print_managers m ms closed (Atsign-Lacks m hm) hms))
    ∙ ap some (result_nil first (m ∷ ms) closed)

sep_count-append :
    (t : Text) (c : ℕ) (s : Text) → Lacks b',' t → sep_count (t ++ c ∷ s) ≡ sep_count (c ∷ s)
unfolding sep_count
sep_count-append [] c s h = refl
sep_count-append (x ∷ []) c s h = ground arith
sep_count-append (x ∷ y ∷ t) c s (hx, ht) = ground (arith, sep_count-append (y ∷ t) c s ht)

sep_count_text : (t : Text) → Lacks b',' t → sep_count t ≡ 0
unfolding sep_count
sep_count_text [] h = refl
sep_count_text (x ∷ []) h = refl
sep_count_text (x ∷ y ∷ t) (hx, ht) = ground (arith, sep_count_text (y ∷ t) ht)

sep_count_comma : (s : Text) → starts_at s ≡ true → sep_count (b',' ∷ s) ≡ suc (sep_count s)
unfolding sep_count
sep_count_comma [] h = cc
sep_count_comma (c ∷ s) h = omega arith

sep_count-closing : (t : Text) (closed : Bool) → Lacks b',' t → sep_count (t ++ closing closed) ≡ 0
sep_count-closing t true h = sep_count-append t b',' [] h ∙ unfold sep_count in refl
sep_count-closing t false h = ap sep_count (append-nil t) ∙ sep_count_text t h

sep_count-print_managers :
    (first : Text) (ms : List Text) (closed : Bool)
    → Lacks b',' first
    → All IsAtsign ms
    → sep_count (print_managers first ms closed) ≡ length ms
unfolding print_managers
sep_count-print_managers first [] closed h hs = sep_count-closing first closed h
sep_count-print_managers first (m ∷ ms) closed h (hm, hms) =
    sep_count-append first b',' _ h
    ∙ sep_count_comma _ (starts_at-print_managers m ms closed hm)
    ∙ ap suc (sep_count-print_managers m ms closed (Atsign-Lacks m hm) hms)

parse_managers-print :
    (first : Text) (ms : List Text) (closed : Bool)
    → Lacks b',' first
    → All IsAtsign ms
    → parse_managers (print_managers first ms closed)
      ≡ some (take (if closed then length ms else length ms + 1) (first ∷ ms))
unfolding parse_managers
parse_managers-print first ms closed h hs =
    rw (scan-print_managers first ms closed h hs, sep_count-print_managers first ms closed h hs)

take_all : (ms : List Text) → take (length ms) ms ≡ ms
take_all [] = refl
take_all (m ∷ ms) = ap (◌∷◌ m) (take_all ms)

take_but_last :
    (x : Text) (ms : List Text) (last : Text)
    → take (length (ms ++ last ∷ [])) (x ∷ (ms ++ last ∷ [])) ≡ x ∷ ms
take_but_last x [] last = refl
take_but_last x (m ∷ ms) last = ap (◌∷◌ x) (take_but_last m ms last)

-- A list of atSigns with single commas between is read back whole; of the first one nothing is
-- asked but that it holds no comma.
pub parse_managers-print_managers :
    (first : Text) (ms : List Text)
    → Lacks b',' first
    → All IsAtsign ms
    → parse_managers (print_managers first ms false) ≡ some (first ∷ ms)
parse_managers-print_managers first ms h hs =
    parse_managers-print first ms false h hs
    ∙ ap (λ n. some (take n (first ∷ ms))) (add-one (length ms))
    ∙ ap some (take_all (first ∷ ms))

-- With a comma behind the last atSign, that last atSign is missing from the managers: the count
-- that the trailing comma lowers had left that comma out already.
pub parse_managers_trailing_comma :
    (first : Text) (ms : List Text) (last : Text)
    → Lacks b',' first
    → All IsAtsign (ms ++ last ∷ [])
    → parse_managers (print_managers first (ms ++ last ∷ []) true) ≡ some (first ∷ ms)
parse_managers_trailing_comma first ms last h hs =
    parse_managers-print first (ms ++ last ∷ []) true h hs ∙ ap some (take_but_last first ms last)
