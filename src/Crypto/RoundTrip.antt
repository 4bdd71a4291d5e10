-- ===== src/Crypto/RoundTrip.antt =====
-- crates/keeplin-srv/src/crypto.rs: what is stored is read back.
use keeplin_srv.Base.{
  ◌≡◌, refl, sym, ◌∙◌, Bool, true, false, unreadable, Result, none, some, [], ◌∷◌, ◌++◌, length,
  take, drop, ltb, if◌then◌else◌, nat_key, is_none, ok, err, internal, ◌>>=◌, ap, length-append,
  arith, inl, inr, Option-cases, eq_refl,
}
use keeplin_srv.Protocol.{Text}
use keeplin_srv.Crypto.{
  Bytes, Cipher, Libraries, tag, strip_prefix, encrypt, decrypt, decrypt_tagged,
}

strip_prefix-append : (prefix text : Bytes) → strip_prefix prefix (prefix ++ text) ≡ some text
unfolding strip_prefix
strip_prefix-append [] text = refl
strip_prefix-append (b ∷ prefix) text = rw (eq_refl b) (strip_prefix-append prefix text)

take-append : (xs ys : Bytes) → take (length xs) (xs ++ ys) ≡ xs
take-append [] ys = refl
take-append (x ∷ xs) ys = ap (λ t. x ∷ t) (take-append xs ys)

drop-append : (xs ys : Bytes) → drop (length xs) (xs ++ ys) ≡ ys
drop-append [] ys = refl
drop-append (x ∷ xs) ys = drop-append xs ys

module _ (lib : Libraries) where
  -- A text that was stored under a key and a nonce of twelve bytes is read back under that key, whether
  -- or not it begins like an encrypted one.
  pub decrypt-encrypt :
      (aes : lib.Aes) (nonce : Bytes) (plain stored : Text)
      → length nonce ≡ 12
      → lib.from_utf8 plain ≡ some plain
      → encrypt lib (some aes) nonce plain ≡ ok stored
      → decrypt lib (some aes) stored ≡ ok plain
  unfolding encrypt decrypt decrypt_tagged
  decrypt-encrypt aes nonce plain stored twelve utf8 h =
      elim (Option-cases (lib.seal aes nonce plain)) [
        | inl e ↦ absurd (ground arith)
        | inr (ct, e) ↦
            let s : stored ≡ tag ++ lib.b64_encode (nonce ++ ct) = ground arith in
            let long : ltb (length (nonce ++ ct)) 12 ≡ false =
              ground (arith, length-append nonce ct) in
            let front : take 12 (nonce ++ ct) ≡ nonce = rw twelve at (take-append nonce ct) in
            let back : drop 12 (nonce ++ ct) ≡ ct = rw twelve at (drop-append nonce ct) in
            rw (s, strip_prefix-append tag (lib.b64_encode (nonce ++ ct)))
              (rw
                (
                  lib.b64_decode-encode (nonce ++ ct),
                  long,
                  front,
                  back,
                  lib.unseal-seal aes nonce plain ct e,
                  utf8,
                )
                refl)
      ]

  -- With no key a text is stored as it is, and is read back exactly if it does not begin like an
  -- encrypted one; else reading it fails.
  pub decrypt-encrypt_disabled :
      (nonce : Bytes) (plain : Text)
      → (encrypt lib none nonce plain >>= decrypt lib none) ≡ (
          if is_none (strip_prefix tag plain)
          then ok plain
          else err (internal "encrypted value but AT_REST_KEY is unset"))
  unfolding encrypt decrypt decrypt_tagged
  decrypt-encrypt_disabled nonce plain = elim (Option-cases (strip_prefix tag plain)) [
    | inl e ↦ rw e refl
    | inr (rest, e) ↦ rw e refl
  ]

  -- The texts that a cipher reads again as it wrote them, which is what `readable` stands for in the tables.
  abbrev is_readable : Cipher lib → Text → Bool
  is_readable (some aes) plain = true
  is_readable none plain = is_none (strip_prefix tag plain)

  -- What is written under a cipher is read under it again where it is readable, and is an error where not.
  pub decrypt-encrypt_readable :
      (cipher : Cipher lib) (nonce : Bytes) (plain stored : Text)
      → length nonce ≡ 12
      → lib.from_utf8 plain ≡ some plain
      → encrypt lib cipher nonce plain ≡ ok stored
      → decrypt lib cipher stored ≡ (if is_readable cipher plain then ok plain else err unreadable)
  decrypt-encrypt_readable (some aes) nonce plain stored twelve utf8 h =
      decrypt-encrypt aes nonce plain stored twelve utf8 h
  decrypt-encrypt_readable none nonce plain stored twelve utf8 h =
      sym (ap (λ (r : Result Text). r >>= decrypt lib none) h)
      ∙ decrypt-encrypt_disabled nonce plain
