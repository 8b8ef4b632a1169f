-- ===== src/PermitOpen/Access.antt =====
-- What `should_permitopen` permits.
use zettahealthonramp.Base.{
  ℕ, ◌%◌, ◌^◌, ◌≤◌, ◌<◌, ◌≡◌, refl, ap, ◌↔◌, ◌⊎◌, inl, inr, Bool, true, ◌&&◌, ◌||◌, List, [], ◌∷◌,
  ◌++◌, map, map-append, arith, ◌==◌, if◌then◌else◌, Bool-cases, Text, All, Any, str_eq, str_eq_iff,
  ok,
}
use zettahealthonramp.PermitOpen.RoundTrip.{ready, print_list, parse_permitopen-print_list}
use zettahealthonramp.PermitOpen.{long_max, parse_permitopen, is_star, should_permitopen, Entry}
use zettahealthonramp.PermitOpen.Buffer.{
  stored_port, entry, IsHostByte, IsPair, PortSpec, Pair, any_port, number,
}

abbrev pub star : Text
star = b'*' ∷ []

-- An entry matches a host and a port: each part names the value itself, or anything.
pub record Matches (host : Text) (port : ℕ) (e : Entry) : Type 0 where
  pub port_matches : (e.port ≡ 0) ⊎ (e.port ≡ port)
  pub host_matches : (e.host ≡ star) ⊎ (e.host ≡ host)

is_star_iff : (h : Text) → (is_star h ≡ true) ↔ (h ≡ star)
is_star_iff [] = ground arith
is_star_iff (c ∷ []) = ground arith
is_star_iff (c ∷ d ∷ h) = ground arith

entry_test : Entry → Text → ℕ → Bool
entry_test e host port = (e.port == 0 || e.port == port) && (is_star e.host || str_eq e.host host)

entry_test-Matches :
    (e : Entry) (host : Text) (port : ℕ) → entry_test e host port ≡ true → Matches host port e
unfolding entry_test
entry_test-Matches e host port h = ground (arith, is_star_iff e.host, str_eq_iff e.host host)

Matches-entry_test :
    (e : Entry) (host : Text) (port : ℕ) → Matches host port e → entry_test e host port ≡ true
unfolding entry_test
Matches-entry_test e host port m = ground (arith, is_star_iff e.host, str_eq_iff e.host host)

should_permitopen-cons :
    (e : Entry) (es : List Entry) (host : Text) (port : ℕ)
    → should_permitopen (e ∷ es) host port
      ≡ (if entry_test e host port then true else should_permitopen es host port)
unfolding should_permitopen entry_test
should_permitopen-cons e es host port = refl

permitted-Any :
    (es : List Entry) (host : Text) (port : ℕ)
    → should_permitopen es host port ≡ true
    → Any (Matches host port) es
unfolding should_permitopen
permitted-Any [] host port h = cc
permitted-Any (e ∷ es) host port h = elim (Bool-cases (entry_test e host port)) [
  | inl yes_it ↦ inl (entry_test-Matches e host port yes_it)
  | inr not_it ↦ inr (permitted-Any es host port (rw (should_permitopen-cons, not_it) at h))
]

Any-permitted :
    (es : List Entry) (host : Text) (port : ℕ)
    → Any (Matches host port) es
    → should_permitopen es host port ≡ true
Any-permitted [] host port h = absurd h
Any-permitted (e ∷ es) host port (inl m) =
    rw (should_permitopen-cons, Matches-entry_test e host port m)
Any-permitted (e ∷ es) host port (inr m) =
    ground (arith, should_permitopen-cons e es host port, Any-permitted es host port m)

-- A request is permitted exactly when some entry matches its host and its port.
should_permitopen_iff :
    (es : List Entry) (host : Text) (port : ℕ)
    → (should_permitopen es host port ≡ true) ↔ Any (Matches host port) es
should_permitopen_iff es host port = (permitted-Any es host port, Any-permitted es host port)

-- A pair of the command line as its author means it: any port, or this one.
abbrev pub Allows : Text → ℕ → Pair → Type 0
Allows host port p =
    ((p.spec ≡ any_port) ⊎ (p.spec ≡ number port)) × ((p.name ≡ star) ⊎ (p.name ≡ host))

-- A port that `uint16_t` holds and that is not 0.
abbrev pub IsPort : PortSpec → Type 0
IsPort any_port = Unit
IsPort (number n) = (0 < n) × (n < 2 ^ 16)

stored_port-Allows :
    (s : PortSpec) (port : ℕ)
    → IsPort s
    → (stored_port s ≡ 0) ⊎ (stored_port s ≡ port)
    → (s ≡ any_port) ⊎ (s ≡ number port)
stored_port-Allows any_port port h m = inl refl
stored_port-Allows (number n) port h (inl e) = absurd (omega arith)
stored_port-Allows (number n) port h (inr e) = inr (ap number (omega arith))

Allows-stored_port :
    (s : PortSpec) (port : ℕ)
    → IsPort s
    → (s ≡ any_port) ⊎ (s ≡ number port)
    → (stored_port s ≡ 0) ⊎ (stored_port s ≡ port)
Allows-stored_port any_port port h m = inl refl
Allows-stored_port (number n) port h m = ground arith

Matches-entry_iff :
    (p : Pair) (host : Text) (port : ℕ)
    → IsPort p.spec
    → Matches host port (entry p) ↔ Allows host port p
Matches-entry_iff p host port h = (
  (λ m. (stored_port-Allows p.spec port h m.port_matches, m.host_matches)),
  (λ a. record { port_matches = Allows-stored_port p.spec port h a.0; host_matches = a.1 }),
)

abbrev pub HasPort : Pair → Type 0
HasPort p = IsPort p.spec

Any-entries_iff :
    (ps : List Pair) (host : Text) (port : ℕ)
    → All HasPort ps
    → Any (Matches host port) (map entry ps) ↔ Any (Allows host port) ps
Any-entries_iff [] host port h = ((λ m. m), (λ m. m))
Any-entries_iff (p ∷ ps) host port (hp, hps) =
    let here = Matches-entry_iff p host port hp in
    let there = Any-entries_iff ps host port hps in
    (
      (λ m. elim m [ inl x ↦ inl (here.0 x) | inr x ↦ inr (there.0 x) ]),
      (λ m. elim m [ inl x ↦ inl (here.1 x) | inr x ↦ inr (there.1 x) ]),
    )

-- From the command line to the answer: a list whose ports are '*' or lie in 1 to 65535 is parsed,
-- and a request is permitted by the result exactly when a pair of the list allows it.
pub permit_list :
    (ps : List Pair) (last : Pair) (host : Text) (port : ℕ)
    → All IsPair ps
    → IsPair last
    → All HasPort (ps ++ last ∷ [])
    → (es : List Entry) × (parse_permitopen ready (print_list ps last) ≡ ok es)
      × ((should_permitopen es host port ≡ true) ↔ Any (Allows host port) (ps ++ last ∷ []))
permit_list ps last host port hps hl hp =
    let pairs = ps ++ last ∷ [] in
    let permitted = should_permitopen_iff (map entry pairs) host port in
    let allowed = Any-entries_iff pairs host port hp in
    (
      map entry pairs,
      parse_permitopen-print_list [] ps last tt hps hl,
      ((λ h. allowed.0 (permitted.0 h)), (λ h. permitted.1 (allowed.1 h))),
    )

Any-last : (P : Entry → Type 0) (es : List Entry) (e : Entry) → P e → Any P (es ++ e ∷ [])
Any-last P [] e h = inl h
Any-last P (x ∷ es) e h = inr (Any-last P es e h)

-- A port that is a multiple of 65536, which `uint16_t` cuts to 0, is accepted and opens every port
-- of its host.
pub wrapped_port_is_wildcard :
    (ps : List Pair) (host : Text) (n port : ℕ)
    → All IsPair ps
    → All IsHostByte host
    → n ≤ long_max
    → n % 2 ^ 16 ≡ 0
    → (es : List Entry) × (parse_permitopen ready
          (print_list ps (record { name = host; spec = number n }))
        ≡ ok es)
      × (should_permitopen es host port ≡ true)
wrapped_port_is_wildcard ps host n port hps hh hn h =
    let last : Pair = record { name = host; spec = number n } in
    (
      map entry (ps ++ last ∷ []),
      parse_permitopen-print_list [] ps last tt hps (hh, hn),
      rw map-append (
          (should_permitopen_iff (map entry ps ++ entry last ∷ []) host port).1 (
            Any-last (Matches host port) (map entry ps) (entry last)
              (record { port_matches = inl h; host_matches = inr refl }))),
    )
