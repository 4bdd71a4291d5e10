-- ===== src/Tests/Crypto.antt =====
-- Encryption at rest with libraries that leave every text as it is.
use keeplin_srv.Base.{
  ◌≡◌, refl, sym, none, some, [], ◌∷◌, ◌++◌, ok, err, internal, is_none, if◌then◌else◌, ◌>>=◌,
  nat_key,
}
use keeplin_srv.Crypto.{Bytes, Libraries, tag, strip_prefix, encrypt, decrypt}
use keeplin_srv.Crypto.RoundTrip.{decrypt-encrypt, decrypt-encrypt_disabled}

abbrev libraries : Libraries
libraries = record {
  Aes = Bytes;
  new = λ key. key;
  seal = λ aes nonce plain. some plain;
  unseal = λ aes nonce sealed. some sealed;
  b64_encode = λ bytes. bytes;
  b64_decode = λ bytes. some bytes;
  from_utf8 = λ bytes. some bytes;
  trim = λ text. text;
  unseal-seal = λ aes nonce plain sealed h. sym h;
  b64_decode-encode = λ bytes. refl;
}

abbrev nonce : Bytes
nonce = 1 ∷ 2 ∷ 3 ∷ 4 ∷ 5 ∷ 6 ∷ 7 ∷ 8 ∷ 9 ∷ 10 ∷ 11 ∷ 12 ∷ []

decrypt-encrypt_example : decrypt libraries (some []) (tag ++ (nonce ++ 65 ∷ [])) ≡ ok (65 ∷ [])
unfolding encrypt
decrypt-encrypt_example =
    decrypt-encrypt libraries [] nonce (65 ∷ []) (tag ++ (nonce ++ 65 ∷ [])) refl refl refl

decrypt-encrypt_disabled_example :
    (encrypt libraries none nonce (tag ++ 65 ∷ []) >>= decrypt libraries none) ≡ (
      if is_none (strip_prefix tag (tag ++ 65 ∷ []))
      then ok (tag ++ 65 ∷ [])
      else err (internal "encrypted value but AT_REST_KEY is unset"))
decrypt-encrypt_disabled_example = decrypt-encrypt_disabled libraries nonce (tag ++ 65 ∷ [])
