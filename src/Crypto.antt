-- ===== src/Crypto.antt =====
-- crates/keeplin-srv/src/crypto.rs: encryption at rest. A text is its UTF-8 bytes. The crates aes_gcm
-- and base64 and the standard library's check of UTF-8 are a parameter with their documented laws; the
-- nonce that `generate_nonce` draws is an argument. An error keeps its kind and text.
pub mod RoundTrip
use keeplin_srv.Base.{
  ℕ, String, ◌≡◌, Bool, true, false, Option, none, some, List, [], ◌∷◌, ◌++◌, length, take, drop,
  ltb, if◌then◌else◌, ◌==◌, nat_key, is_some, Result, ok, err, internal, ok_or, ◌>>=◌,
}
use keeplin_srv.Protocol.{Text}

abbrev pub Bytes : Type 0
Bytes = List ℕ

pub record Libraries : Type 1 where
  -- `Aes256Gcm`: a key that has been set up
  pub Aes : Type 0
  pub new : Bytes → Aes
  pub seal : Aes → Bytes → Bytes → Option Bytes
  pub unseal : Aes → Bytes → Bytes → Option Bytes
  pub b64_encode : Bytes → Bytes
  pub b64_decode : Bytes → Option Bytes
  pub from_utf8 : Bytes → Option Text
  pub trim : Text → Text
  -- What is sealed under a nonce is unsealed by the same key under that nonce.
  pub unseal-seal :
      (aes : Aes) (nonce plain sealed : Bytes)
      → seal aes nonce plain ≡ some sealed
      → unseal aes nonce sealed ≡ some plain
  pub b64_decode-encode : (bytes : Bytes) → b64_decode (b64_encode bytes) ≡ some bytes

-- `enc:v1:`
abbrev pub tag : Bytes
tag = 101 ∷ 110 ∷ 99 ∷ 58 ∷ 118 ∷ 49 ∷ 58 ∷ []

unfoldable pub strip_prefix : Bytes → Text → Option Text
strip_prefix [] text = some text
strip_prefix (b ∷ prefix) [] = none
strip_prefix (b ∷ prefix) (c ∷ text) =
    let rest = strip_prefix prefix text in if b == c then rest else none

module _ (lib : Libraries) where
  -- `Cipher`: none is disabled.
  abbrev pub Cipher : Type 0
  Cipher = Option lib.Aes

  abbrev pub present : Option Text → Option Text
  present none = none
  present (some key) = elim (lib.trim key) [ [] ↦ none | b ∷ bytes ↦ some (b ∷ bytes) ]

  abbrev pub of_bytes : Option Bytes → Option Cipher
  of_bytes none = none
  of_bytes (some bytes) = if length bytes == 32 then some (some (lib.new bytes)) else none

  -- No cipher means an error at start-up.
  unfoldable pub from_key : Option Text → Option Cipher
  from_key key = elim (present key) [ none ↦ some none | some raw ↦ of_bytes (lib.b64_decode raw) ]

  unfoldable pub enabled : Cipher → Bool
  enabled cipher = is_some cipher

  unfoldable pub encrypt : Cipher → Bytes → Text → Result Text
  encrypt none nonce plaintext = ok plaintext
  encrypt (some aes) nonce plaintext = do
    ct ← ok_or (lib.seal aes nonce plaintext) (internal "at-rest encryption failed")
    ok (tag ++ lib.b64_encode (nonce ++ ct))

  unfoldable pub decrypt_tagged : Cipher → Bytes → Result Text
  decrypt_tagged cipher rest = do
    aes ← ok_or cipher (internal "encrypted value but AT_REST_KEY is unset")
    blob ← ok_or (lib.b64_decode rest) (internal "at-rest ciphertext is not valid base64")
    if ltb (length blob) 12 then err (internal "at-rest ciphertext too short") else do
      pt ←
          ok_or (lib.unseal aes (take 12 blob) (drop 12 blob))
            (internal "at-rest decryption failed (wrong key?)")
      ok_or (lib.from_utf8 pt) (internal "at-rest plaintext not utf-8")

  abbrev pub decrypt_stripped : Cipher → Text → Option Bytes → Result Text
  decrypt_stripped cipher stored none = ok stored
  decrypt_stripped cipher stored (some rest) = decrypt_tagged cipher rest

  unfoldable pub decrypt : Cipher → Text → Result Text
  unfolding decrypt_tagged
  decrypt cipher stored = decrypt_stripped cipher stored (strip_prefix tag stored)
