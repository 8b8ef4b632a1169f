-- ===== src/Srv/Ciphers.antt =====
-- When create_encrypter_and_decrypter of packages/c/srv/src/srv.c sets its transformers up.
use zettahealthonramp.Base.{◌≡◌, ◌≢◌, ◌↔◌, ◌⊎◌, inl, inr, none, some, arith, Text, length}
use zettahealthonramp.Code.{success, is_zero_iff}
use zettahealthonramp.Srv.{cipher, create_encrypter_and_decrypter, Crypto, Cipher}

-- A key and an iv in base64, of 32 and of 16 bytes, of which the key can be set.
pub record IsUsable (C : Crypto) (key iv : Text) : Type 0 where
  pub key_decoded : C.base64_decode key ≡ success
  pub key_length : length (C.base64_decoded key) ≡ 32
  pub key_set : C.setkey_enc (C.base64_decoded key) ≡ success
  pub iv_decoded : C.base64_decode iv ≡ success
  pub iv_length : length (C.base64_decoded iv) ≡ 16

-- The transform functions are set exactly for a usable key and iv, with the decoded key and iv and
-- a counter that begins at 0.
create_encrypter_and_decrypter_iff :
    (C : Crypto) (key iv : Text) (c : Cipher)
    → ((create_encrypter_and_decrypter C key iv).1 ≡ some c)
      ↔ (IsUsable C key iv × (c ≡ cipher C key iv))
unfolding create_encrypter_and_decrypter
create_encrypter_and_decrypter_iff C key iv c =
    let k = is_zero_iff (C.base64_decode key) in
    let s = is_zero_iff (C.setkey_enc (C.base64_decoded key)) in
    let v = is_zero_iff (C.base64_decode iv) in
    ((λ h. ground (arith, k, s, v)), (λ h. ground (arith, k, s, v)))

-- A key or an iv that decodes to a wrong length is answered with 0, and nothing is set.
pub create_encrypter_and_decrypter_wrong_length :
    (C : Crypto) (key iv : Text)
    → C.base64_decode key ≡ success
    → C.base64_decode iv ≡ success
    → C.setkey_enc (C.base64_decoded key) ≡ success
    → (length (C.base64_decoded key) ≢ 32) ⊎ (length (C.base64_decoded iv) ≢ 16)
    → create_encrypter_and_decrypter C key iv ≡ (success, none)
unfolding create_encrypter_and_decrypter
create_encrypter_and_decrypter_wrong_length C key iv k v s (inl h) = ground arith
create_encrypter_and_decrypter_wrong_length C key iv k v s (inr h) = ground arith
