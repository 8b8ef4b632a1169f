-- ===== src/Composition/KeyFile/Grown.antt =====
-- What becomes of the file of authorized keys of packages/c/sshnpd while the main loop runs.
use zettahealthonramp.Base.{
  ◌≡◌, refl, sym, ap, subst, ◌∙◌, ◌⊎◌, inl, inr, Bool, true, false, Option, none, some, List, [],
  ◌∷◌, ◌++◌, append-nil, append_assoc, if◌then◌else◌, Bool-cases, Text, Any, ◌>>=◌, Outcome, ok,
  error, fault,
}
use zettahealthonramp.Code.{ℤ}
use zettahealthonramp.SshPublicKey.{is_valid_prefix}
use zettahealthonramp.AuthorizedKeys.{authorize_ssh_public_key, handle_sshpublickey, FileAnswers}
use zettahealthonramp.AuthorizedKeys.Kept.{authorize_ssh_public_key-Authorises}
use zettahealthonramp.Daemon.{
  round, Action, Config, State, nk_sshpublickey, nk_none, nk_ping, nk_ssh_request, nk_npt_request,
  notification, sends_device_info, reads, reconnects, handles, Notification as Received,
}
use zettahealthonramp.Composition.Loop.{answers}
use zettahealthonramp.Composition.Loop.Served.{round-Dispatches, Dispatches, Handles}
use zettahealthonramp.Composition.KeyFile.{add_key, actions_file, daemon_file, FileTurn}

-- The file keeps what it holds, and it grows only for a reason.
abbrev pub Grows : Text → Type 0 → Outcome Text → Type 0
Grows contents Why error = Unit
Grows contents Why fault = Unit
Grows contents Why (ok file) = (rest : Text) × (file ≡ contents ++ rest) × ((rest ≡ []) ⊎ Why)

Grows-same : (contents : Text) (Why : Type 0) → Grows contents Why (ok contents)
Grows-same contents Why = ([], sym (append-nil contents), inl refl)

either_grew : {Why : Type 0} (a b : Text) → (a ≡ []) ⊎ Why → (b ≡ []) ⊎ Why → (a ++ b ≡ []) ⊎ Why
either_grew a b (inr w) v = inr w
either_grew a b (inl e) (inr w) = inr w
either_grew a b (inl e) (inl f) = inl (ap (λ t. t ++ b) e ∙ f)

Grows-behind :
    (contents file : Text) (Why : Type 0) (o : Outcome Text)
    → Grows contents Why (ok file)
    → Grows file Why o
    → Grows contents Why o
Grows-behind contents file Why error g h = tt
Grows-behind contents file Why fault g h = tt
Grows-behind contents file Why (ok last) (a, e, w) (b, f, v) =
    (a ++ b, f ∙ ap (λ t. t ++ b) e ∙ append_assoc contents a b, either_grew a b w v)

Grows-bind :
    (contents : Text) (Why : Type 0) (o : Outcome Text) (f : Text → Outcome Text)
    → Grows contents Why o
    → ((file : Text) → Grows file Why (f file))
    → Grows contents Why (o >>= f)
Grows-bind contents Why error f g h = tt
Grows-bind contents Why fault f g h = tt
Grows-bind contents Why (ok file) f g h = Grows-behind contents file Why (f file) g (h file)

Grows-map :
    (contents : Text) (Why Other : Type 0) (o : Outcome Text)
    → (Why → Other)
    → Grows contents Why o
    → Grows contents Other o
Grows-map contents Why Other error f g = tt
Grows-map contents Why Other fault f g = tt
Grows-map contents Why Other (ok file) f (rest, e, inl same) = (rest, e, inl same)
Grows-map contents Why Other (ok file) f (rest, e, inr w) = (rest, e, inr (f w))

handled_Grows :
    (contents : Text) (Why : Type 0) (o : Outcome (ℤ × Text))
    → Why
    → ((c : ℤ) (file : Text) → o ≡ ok (c, file) → (rest : Text) × (file ≡ contents ++ rest))
    → Grows contents Why (o >>= λ r. ok r.1)
handled_Grows contents Why error w h = tt
handled_Grows contents Why fault w h = tt
handled_Grows contents Why (ok (c, file)) w h = let (rest, e) = h c file refl in (rest, e, inr w)

handle_sshpublickey-Grows :
    (w : FileAnswers) (on : Bool) (contents key : Text)
    → Grows contents (on ≡ true) (handle_sshpublickey w on contents key)
unfolding handle_sshpublickey
handle_sshpublickey-Grows w false contents key = Grows-same contents (false ≡ true)
handle_sshpublickey-Grows w true contents key = elim (Bool-cases (is_valid_prefix key)) [
  | inr bad ↦ rw bad (Grows-same contents (true ≡ true))
  | inl good ↦ rw good (
      handled_Grows contents (true ≡ true) (authorize_ssh_public_key w contents [] key) refl
        λ c file e. (authorize_ssh_public_key-Authorises w contents [] key file c e).0)
]

add_key-Grows :
    (on : Bool) (t : FileTurn) (o : Option Text) (contents : Text)
    → Grows contents (on ≡ true) (add_key on t o contents)
add_key-Grows true t none contents = tt
add_key-Grows false t none contents = Grows-same contents (false ≡ true)
add_key-Grows on t (some key) contents = handle_sshpublickey-Grows t.file on contents key

-- The daemon was told to accept keys, and a request to add one is handled.
abbrev HandlesKey : Bool → List Action → Type 0
HandlesKey on l = (on ≡ true) × Handles nk_sshpublickey l

skipped :
    (on : Bool) (a : Action) (l : List Action) (contents : Text) (o : Outcome Text)
    → Grows contents (HandlesKey on l) o
    → Grows contents (HandlesKey on (a ∷ l)) o
skipped on a l contents o =
    Grows-map contents (HandlesKey on l) (HandlesKey on (a ∷ l)) o (λ h. (h.0, inr h.1))

actions_file-Grows :
    (on : Bool) (t : FileTurn) (l : List Action) (contents : Text)
    → Grows contents (HandlesKey on l) (actions_file on t l contents)
unfolding actions_file
actions_file-Grows on t [] contents = Grows-same contents (HandlesKey on [])
actions_file-Grows on t (handles nk_sshpublickey ∷ l) contents =
    Grows-bind contents (HandlesKey on (handles nk_sshpublickey ∷ l))
      (add_key on t t.turn.decrypted_value contents) (actions_file on t l)
      (Grows-map contents (on ≡ true) _ (add_key on t t.turn.decrypted_value contents)
        (λ e. (e, inl refl)) (add_key-Grows on t t.turn.decrypted_value contents))
      λ file. skipped on (handles nk_sshpublickey) l file _ (actions_file-Grows on t l file)
actions_file-Grows on t (handles nk_none ∷ l) contents =
    skipped on _ l contents _ (actions_file-Grows on t l contents)
actions_file-Grows on t (handles nk_ping ∷ l) contents =
    skipped on _ l contents _ (actions_file-Grows on t l contents)
actions_file-Grows on t (handles nk_ssh_request ∷ l) contents =
    skipped on _ l contents _ (actions_file-Grows on t l contents)
actions_file-Grows on t (handles nk_npt_request ∷ l) contents =
    skipped on _ l contents _ (actions_file-Grows on t l contents)
actions_file-Grows on t (sends_device_info ∷ l) contents =
    skipped on _ l contents _ (actions_file-Grows on t l contents)
actions_file-Grows on t (reads ∷ l) contents =
    skipped on _ l contents _ (actions_file-Grows on t l contents)
actions_file-Grows on t (reconnects calls ∷ l) contents =
    skipped on _ l contents _ (actions_file-Grows on t l contents)

-- The notification of a round names this device and asks to add a key.
abbrev pub AddsKey : Config → FileTurn → Type 0
AddsKey c t = (n : Received) × (t.turn.message ≡ notification n) × Dispatches c n nk_sshpublickey

abbrev pub AddsKeys : Config → Bool → List FileTurn → Type 0
AddsKeys c on ts = (on ≡ true) × Any (AddsKey c) ts

round-Grows :
    (c : Config) (ping_response : Text) (on : Bool) (s : State) (t : FileTurn) (contents : Text)
    → Grows contents
        ((on ≡ true) × AddsKey c t)
        (actions_file on t (round c s (answers c ping_response t.turn)).1 contents)
unfolding answers
round-Grows c ping_response on s t contents =
    Grows-map contents _ _ _
      (λ h. (h.0, round-Dispatches c s (answers c ping_response t.turn) nk_sshpublickey h.1))
      (actions_file-Grows on t (round c s (answers c ping_response t.turn)).1 contents)

if_left :
    (b : Bool) (file : Text) (Why : Type 0) (later : Outcome Text)
    → Grows file Why later
    → Grows file Why (if b then ok file else later)
if_left true file Why later h = Grows-same file Why
if_left false file Why later h = h

module _ (c : Config) (ping_response : Text) (on : Bool) where
  daemon_file-Grows :
      (s : State) (ts : List FileTurn) (contents : Text)
      → Grows contents (AddsKeys c on ts) (daemon_file c ping_response on s ts contents)
  unfolding daemon_file
  daemon_file-Grows s [] contents = Grows-same contents (AddsKeys c on [])
  daemon_file-Grows s (t ∷ ts) contents =
      let after = round c s (answers c ping_response t.turn) in
      Grows-bind contents (AddsKeys c on (t ∷ ts)) (actions_file on t after.1 contents) _
        (Grows-map contents _ _ _ (λ h. (h.0, inl h.1))
          (round-Grows c ping_response on s t contents))
        λ file.
          Grows-map file _ _ _ (λ h. (h.0, inr h.1))
            (if_left _ file (AddsKeys c on ts) _ (daemon_file-Grows after.0 ts file))

  -- However many rounds the main loop makes, from whatever state and whatever the libraries answer: the
  -- file of authorized keys keeps all that it held, and if anything is added behind it, then the daemon
  -- was told to accept public keys, and one of the rounds got a notification with a value whose key
  -- names this device and asks for that.
  pub daemon_file-keeps :
      (s : State) (ts : List FileTurn) (contents file : Text)
      → daemon_file c ping_response on s ts contents ≡ ok file
      → (rest : Text) × (file ≡ contents ++ rest)
        × ((rest ≡ []) ⊎ ((on ≡ true) × Any (AddsKey c) ts))
  daemon_file-keeps s ts contents file h =
      subst (Grows contents (AddsKeys c on ts)) h (daemon_file-Grows s ts contents)
