-- ===== src/Vault/Crypto.antt =====
-- internal/vault/crypto.go. Argon2id and AES-GCM are a parameter; what rand.Read delivers is an
-- argument of each operation that reads it, `none` where it fails.
use subnetree.Prelude.{
  ℕ, zero, suc, ◌≡◌, refl, ap, subst, String, Bool, true, false, List, [], ◌∷◌, ◌++◌, map, Option,
  none, some, ◌==◌, bytes_eq, ==_refl, ltb, if◌then◌else◌, length, length-append, Result, ok, err,
  arith,
}

-- What the third-party code does: argon2.IDKey with the parameters of the package gives keys that
-- aes.NewCipher accepts, and GCM opens what it sealed under the same key and nonce.
pub record Primitives : Type 0 where
  pub id_key : String → List ℕ → List ℕ
  pub new_cipher : List ℕ → Bool
  pub gcm_seal : List ℕ → List ℕ → List ℕ → List ℕ
  pub gcm_open : List ℕ → List ℕ → List ℕ → Option (List ℕ)
  pub new_cipher-id_key :
      (passphrase : String) (salt : List ℕ) → new_cipher (id_key passphrase salt) ≡ true
  pub gcm_open-gcm_seal :
      (key nonce plain : List ℕ) → gcm_open key nonce (gcm_seal key nonce plain) ≡ some plain

pub data CryptoError : Type 0 where
  no_random too_short bad_key not_authentic : CryptoError

abbrev pub nonce_len : ℕ
nonce_len = 12

-- "subnetree-vault-v1".
abbrev pub verification_magic : List ℕ
verification_magic =
    115 ∷ 117 ∷ 98 ∷ 110 ∷ 101 ∷ 116 ∷ 114 ∷ 101 ∷ 101 ∷ 45 ∷ 118 ∷ 97 ∷ 117 ∷ 108 ∷ 116 ∷ 45 ∷ 118
    ∷ 49 ∷ []

-- `data[:n]` and `data[n:]`.
abbrev take : ℕ → List ℕ → List ℕ
take zero xs = []
take (suc n) [] = []
take (suc n) (x ∷ xs) = x ∷ take n xs

abbrev drop : ℕ → List ℕ → List ℕ
drop zero xs = xs
drop (suc n) [] = []
drop (suc n) (x ∷ xs) = drop n xs

abbrev pub zero_bytes : List ℕ → List ℕ
zero_bytes bs = map (λ b. 0) bs

abbrev pub generate_salt : Option (List ℕ) → Result CryptoError (List ℕ)
generate_salt none = err CryptoError.no_random
generate_salt (some bs) = ok bs

module _ (c : Primitives) where
  abbrev pub derive_kek : String → List ℕ → List ℕ
  derive_kek passphrase salt = c.id_key passphrase salt

  unfoldable pub encrypt : Option (List ℕ) → List ℕ → List ℕ → Result CryptoError (List ℕ)
  encrypt random key plain =
      if c.new_cipher key
      then elim random [
        | none ↦ err CryptoError.no_random
        | some nonce ↦ ok (nonce ++ c.gcm_seal key nonce plain)
      ]
      else err CryptoError.bad_key

  unfoldable pub decrypt : List ℕ → List ℕ → Result CryptoError (List ℕ)
  decrypt key bytes =
      if ltb (length bytes) nonce_len
      then err CryptoError.too_short
      else if c.new_cipher key
      then elim (c.gcm_open key (take nonce_len bytes) (drop nonce_len bytes)) [
        | none ↦ err CryptoError.not_authentic
        | some plain ↦ ok plain
      ]
      else err CryptoError.bad_key

  abbrev pub create_verification_blob : Option (List ℕ) → List ℕ → Result CryptoError (List ℕ)
  create_verification_blob random kek = encrypt random kek verification_magic

  unfoldable pub verify_kek : List ℕ → List ℕ → Bool
  verify_kek kek blob = elim (decrypt kek blob) [
    | err _ ↦ false
    | ok plain ↦ plain == verification_magic
  ]

  take-append : (n xs : List ℕ) → take (length n) (n ++ xs) ≡ n
  take-append [] xs = refl
  take-append (x ∷ n) xs = ap (λ l. x ∷ l) (take-append n xs)

  drop-append : (n xs : List ℕ) → drop (length n) (n ++ xs) ≡ xs
  drop-append [] xs = refl
  drop-append (x ∷ n) xs = drop-append n xs

  decrypt-append :
      (n : ℕ) (key nonce plain : List ℕ)
      → length nonce ≡ n
      → n ≡ nonce_len
      → c.new_cipher key ≡ true
      → decrypt key (nonce ++ c.gcm_seal key nonce plain) ≡ ok plain
  unfolding decrypt
  decrypt-append n key nonce plain sized twelve accepted =
      let body = c.gcm_seal key nonce plain in
      let opened : c.gcm_open key (take n (nonce ++ body)) (drop n (nonce ++ body)) ≡ some plain =
        subst (λ k. c.gcm_open key (take k (nonce ++ body)) (drop k (nonce ++ body)) ≡ some plain)
          sized
          (rw (take-append nonce body, drop-append nonce body, c.gcm_open-gcm_seal key nonce plain)
            refl) in
      ground (arith, opened, sized, twelve, length-append nonce body)

  -- Whatever is encrypted decrypts under the same key, with any nonce of 12 bytes and any key that the
  -- cipher accepts.
  pub decrypt-encrypt :
      (key nonce plain : List ℕ)
      → length nonce ≡ nonce_len
      → c.new_cipher key ≡ true
      → (sealed : List ℕ) × (encrypt (some nonce) key plain ≡ ok sealed)
        × (decrypt key sealed ≡ ok plain)
  unfolding encrypt
  decrypt-encrypt key nonce plain twelve accepted = (
    nonce ++ c.gcm_seal key nonce plain,
    rw accepted refl,
    decrypt-append nonce_len key nonce plain twelve refl accepted,
  )

  -- A key passes against the verification blob that was made with it.
  pub verify_kek-create_verification_blob :
      (key nonce : List ℕ)
      → length nonce ≡ nonce_len
      → c.new_cipher key ≡ true
      → (blob : List ℕ) × (create_verification_blob (some nonce) key ≡ ok blob)
        × (verify_kek key blob ≡ true)
  unfolding verify_kek
  verify_kek-create_verification_blob key nonce twelve accepted =
      let (blob, e, d) = decrypt-encrypt key nonce verification_magic twelve accepted in
      (blob, e, rw (verify_kek, d) (==_refl verification_magic))
