-- ===== src/Vault/KeyManager/Rotation.antt =====
-- RotateKEK and the function that it returns.
use subnetree.Prelude.{
  ℕ, ◌+◌, ◌≡◌, ◌≢◌, refl, ◌∙◌, ap, String, false, List, Option, some, nat_eq, length, ok, arith,
}
use subnetree.Vault.Crypto.{
  Primitives, nonce_len, zero_bytes, derive_kek, encrypt, decrypt, decrypt-encrypt,
  verify_kek-create_verification_blob,
}
use subnetree.Vault.KeyManager.{
  KeyManager, is_sealed, seal, rotate_kek, Rewrap, rewrap, wrap_dek, unwrap_dek, lift,
}
use subnetree.Vault.KeyManager.Cycle.{IsSetUp, key_of}

module _ (c : Primitives) where
  -- What a rotation leaves behind: a vault set up for the new passphrase, a copy of the old key, and
  -- the new key's slice, which the rewrap function shares with the manager.
  record IsRotated (passphrase : String) (old : List ℕ) (salt : List ℕ) (km : KeyManager)
      (r : Rewrap) : Type 0 where
    set_up : IsSetUp c passphrase km
    salted : km.salt ≡ salt
    copied : km.memory.cell r.old_kek ≡ old
    shared : km.kek ≡ some r.new_kek
    apart : r.old_kek ≢ r.new_kek

  rotate_kek-IsRotated :
      (passphrase after : String) (salt nonce : List ℕ) (km : KeyManager)
      → length nonce ≡ nonce_len
      → IsSetUp c passphrase km
      → is_sealed km ≡ false
      → (r : Rewrap) × ((rotate_kek c (some salt) (some nonce) after km).1 ≡ ok r)
        × IsRotated after
            (derive_kek c passphrase km.salt)
            salt
            (rotate_kek c (some salt) (some nonce) after km).0
            r
  unfolding rotate_kek
  rotate_kek-IsRotated passphrase after salt nonce km twelve v opened =
      let (p, h) = key_of c km opened in
      let (blob, made, good) =
        verify_kek-create_verification_blob c (derive_kek c after salt) nonce twelve
          (c.new_cipher-id_key after salt) in
      let (held, old) = v.holds p h in
      (
        record { old_kek = km.memory.next + 1; new_kek = km.memory.next },
        ground (arith, h, made),
        record {
          set_up = record {
            initialized = ground (arith, h, made, v.initialized);
            verifies = ground (arith, h, made, good);
            holds = λ q e. ground (arith, h, made, old);
          };
          salted = ground (arith, h, made);
          copied = ground (arith, h, made, held, old);
          shared = ground (arith, h, made);
          apart = ground arith;
        },
      )

  wrap_dek-lift :
      (passphrase : String) (random : Option (List ℕ)) (dek : List ℕ) (km : KeyManager)
      → IsSetUp c passphrase km
      → is_sealed km ≡ false
      → wrap_dek c random dek km ≡ lift (encrypt c random (derive_kek c passphrase km.salt) dek)
  unfolding wrap_dek
  wrap_dek-lift passphrase random dek km v opened =
      let (p, h) = key_of c km opened in rw (h, (v.holds p h).0) refl

  unwrap_dek-lift :
      (passphrase : String) (wrapped : List ℕ) (km : KeyManager) (p : ℕ)
      → IsSetUp c passphrase km
      → km.kek ≡ some p
      → unwrap_dek c wrapped km ≡ lift (decrypt c (derive_kek c passphrase km.salt) wrapped)
  unfolding unwrap_dek
  unwrap_dek-lift passphrase wrapped km p v h = rw (h, (v.holds p h).0) refl

  -- With nonces of 12 bytes, from an unsealed vault that is set up for its passphrase: after a
  -- rotation to a new passphrase, each DEK that the vault wrapped before is rewrapped by the
  -- returned function, and the manager unwraps the result to the same DEK.
  pub unwrap_dek-rewrap :
      (passphrase after : String) (salt nonce wrap_nonce rewrap_nonce dek : List ℕ)
      (km : KeyManager)
      → length nonce ≡ nonce_len
      → length wrap_nonce ≡ nonce_len
      → length rewrap_nonce ≡ nonce_len
      → IsSetUp c passphrase km
      → is_sealed km ≡ false
      → (wrapped : List ℕ) × (rewrapped : List ℕ) × (r : Rewrap) × (wrap_dek c
            (some wrap_nonce)
            dek
            km
          ≡ ok wrapped)
        × ((rotate_kek c (some salt) (some nonce) after km).1 ≡ ok r)
        × (rewrap c r
              (some rewrap_nonce)
              wrapped
              (rotate_kek c (some salt) (some nonce) after km).0.memory
            ≡ ok rewrapped)
        × (unwrap_dek c rewrapped (rotate_kek c (some salt) (some nonce) after km).0 ≡ ok dek)
        × IsSetUp c after (rotate_kek c (some salt) (some nonce) after km).0
  unfolding rewrap
  unwrap_dek-rewrap passphrase after salt nonce wrap_nonce rewrap_nonce dek km twelve w12 r12 v
        opened =
      let old = derive_kek c passphrase km.salt in
      let (r, done, t) = rotate_kek-IsRotated passphrase after salt nonce km twelve v opened in
      let km' = (rotate_kek c (some salt) (some nonce) after km).0 in
      let (wrapped, made, read) =
        decrypt-encrypt c old wrap_nonce dek w12 (c.new_cipher-id_key passphrase km.salt) in
      let (rewrapped, made', read') =
        decrypt-encrypt c (derive_kek c after km'.salt) rewrap_nonce dek r12
          (c.new_cipher-id_key after km'.salt) in
      (
        wrapped,
        rewrapped,
        r,
        wrap_dek-lift passphrase (some wrap_nonce) dek km v opened ∙ ap lift made,
        done,
        rw (rewrap, t.copied, read, (t.set_up.holds r.new_kek t.shared).0, made') refl,
        unwrap_dek-lift after rewrapped km' r.new_kek t.set_up t.shared ∙ ap lift read',
        t.set_up,
      )

  seal-cell :
      (km : KeyManager) (r : Rewrap)
      → km.kek ≡ some r.new_kek
      → r.old_kek ≢ r.new_kek
      → ((seal km).memory.cell r.new_kek ≡ zero_bytes (km.memory.cell r.new_kek))
        × ((seal km).memory.cell r.old_kek ≡ km.memory.cell r.old_kek)
  unfolding seal
  seal-cell km r shared apart = rw shared (ground arith, ground (arith, apart))

  -- With nonces of 12 bytes, from an unsealed vault that is set up: if the vault is sealed after a
  -- rotation, the returned function encrypts the DEKs under a key of zeros.
  pub rewrap-seal :
      (passphrase after : String) (salt nonce wrap_nonce dek : List ℕ) (km : KeyManager)
      (random : Option (List ℕ))
      → length nonce ≡ nonce_len
      → length wrap_nonce ≡ nonce_len
      → IsSetUp c passphrase km
      → is_sealed km ≡ false
      → (wrapped : List ℕ) × (r : Rewrap) × (wrap_dek c (some wrap_nonce) dek km ≡ ok wrapped)
        × ((rotate_kek c (some salt) (some nonce) after km).1 ≡ ok r)
        × (rewrap c r random wrapped
              (seal (rotate_kek c (some salt) (some nonce) after km).0).memory
            ≡ lift (encrypt c random (zero_bytes (derive_kek c after salt)) dek))
  unfolding rewrap
  rewrap-seal passphrase after salt nonce wrap_nonce dek km random twelve w12 v opened =
      let old = derive_kek c passphrase km.salt in
      let (r, done, t) = rotate_kek-IsRotated passphrase after salt nonce km twelve v opened in
      let km' = (rotate_kek c (some salt) (some nonce) after km).0 in
      let (wrapped, made, read) =
        decrypt-encrypt c old wrap_nonce dek w12 (c.new_cipher-id_key passphrase km.salt) in
      let (zeroed, kept) = seal-cell km' r t.shared t.apart in
      (
        wrapped,
        r,
        wrap_dek-lift passphrase (some wrap_nonce) dek km v opened ∙ ap lift made,
        done,
        rw (rewrap, kept, t.copied, read, zeroed, (t.set_up.holds r.new_kek t.shared).0, t.salted)
            refl,
      )
