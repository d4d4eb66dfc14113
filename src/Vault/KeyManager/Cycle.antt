-- ===== src/Vault/KeyManager/Cycle.antt =====
-- A vault that is set up, sealed and unsealed again keeps its secrets readable.
use subnetree.Prelude.{
  ℕ, ◌<◌, ◌≡◌, ◌≢◌, ◌↔◌, ◌⊎◌, refl, ◌∙◌, String, true, false, List, none, some, nat_eq, length, ok,
  arith, Option-cases, inl, inr,
}
use subnetree.Vault.Crypto.{
  Primitives, nonce_len, zero_bytes, derive_kek, verify_kek, decrypt-encrypt,
  verify_kek-create_verification_blob,
}
use subnetree.Vault.KeyManager.{
  KeyManager, VaultError, is_sealed, seal, unseal, first_run_setup, wrap_dek, unwrap_dek,
}

module _ (c : Primitives) where
  -- The vault is set up for a passphrase: the stored salt and blob are those of its key, and an
  -- unsealed manager holds that key.
  pub record IsSetUp (passphrase : String) (km : KeyManager) : Type 0 where
    pub initialized : km.initialized ≡ true
    pub verifies : verify_kek c (derive_kek c passphrase km.salt) km.verification_blob ≡ true
    pub holds :
        (p : ℕ)
        → km.kek ≡ some p
        → (km.memory.cell p ≡ derive_kek c passphrase km.salt) × (p < km.memory.next)

  pub first_run_setup-IsSetUp :
      (passphrase : String) (salt nonce : List ℕ) (km : KeyManager)
      → km.initialized ≡ false
      → length nonce ≡ nonce_len
      → (((first_run_setup c (some salt) (some nonce) passphrase km).1 ≡ none)
          × (is_sealed (first_run_setup c (some salt) (some nonce) passphrase km).0 ≡ false)
          × IsSetUp passphrase (first_run_setup c (some salt) (some nonce) passphrase km).0)
  unfolding first_run_setup
  first_run_setup-IsSetUp passphrase salt nonce km fresh twelve =
      let (blob, made, good) =
        verify_kek-create_verification_blob c (derive_kek c passphrase salt) nonce twelve
          (c.new_cipher-id_key passphrase salt) in
      rw (fresh, made)
        (refl, refl, record { initialized = refl; verifies = good; holds = λ p h. ground (arith) })

  pub seal-IsSetUp :
      (passphrase : String) (km : KeyManager) → IsSetUp passphrase km → IsSetUp passphrase (seal km)
  unfolding seal
  seal-IsSetUp passphrase km v = record {
    initialized = ground (arith, v.initialized);
    verifies = ground (arith, v.verifies);
    holds = λ p h. ground (arith, v.holds p);
  }

  pub unseal-IsSetUp :
      (passphrase : String) (km : KeyManager)
      → IsSetUp passphrase km
      → ((unseal c passphrase km).1 ≡ none)
        × (is_sealed (unseal c passphrase km).0 ≡ false)
        × IsSetUp passphrase (unseal c passphrase km).0
  unfolding unseal
  unseal-IsSetUp passphrase km v = (
    ground (arith, v.initialized, v.verifies),
    ground (arith, v.initialized, v.verifies),
    record {
      initialized = ground (arith, v.initialized);
      verifies = ground (arith, v.verifies, v.initialized);
      holds = λ p h. ground (arith, v.holds p, v.verifies, v.initialized);
    },
  )

  pub key_of : (km : KeyManager) → is_sealed km ≡ false → (p : ℕ) × (km.kek ≡ some p)
  key_of km opened = elim (Option-cases km.kek) [ inl n ↦ absurd (ground (arith, n)) | inr s ↦ s ]

  -- What an unsealed manager wraps, every unsealed manager with the same salt unwraps.
  pub wrap_dek-IsSetUp :
      (passphrase : String) (nonce dek : List ℕ) (km : KeyManager)
      → length nonce ≡ nonce_len
      → IsSetUp passphrase km
      → is_sealed km ≡ false
      → (wrapped : List ℕ) × (wrap_dek c (some nonce) dek km ≡ ok wrapped)
        × ((km' : KeyManager)
            → IsSetUp passphrase km'
            → km'.salt ≡ km.salt
            → is_sealed km' ≡ false
            → unwrap_dek c wrapped km' ≡ ok dek)
  unfolding wrap_dek unwrap_dek
  wrap_dek-IsSetUp passphrase nonce dek km twelve v opened =
      let key = derive_kek c passphrase km.salt in
      let (wrapped, made, read) =
        decrypt-encrypt c key nonce dek twelve (c.new_cipher-id_key passphrase km.salt) in
      (
        wrapped,
        (let (p, h) = key_of km opened in rw (h, (v.holds p h).0, made) refl),
        λ km' v' same opened'.
            let (p, h) = key_of km' opened' in rw (h, (v'.holds p h).0, same, read) refl,
      )

  seal-salt : (km : KeyManager) → (seal km).salt ≡ km.salt
  unfolding seal
  seal-salt km = ground arith

  unseal-salt : (passphrase : String) (km : KeyManager) → (unseal c passphrase km).0.salt ≡ km.salt
  unfolding unseal
  unseal-salt passphrase km = ground arith

  -- With nonces of 12 bytes: setting a new vault up for a passphrase, sealing it and unsealing it with that passphrase
  -- succeeds, and a DEK that was wrapped before the seal unwraps after it.
  pub unwrap_dek-unseal-seal :
      (passphrase : String) (salt nonce wrap_nonce dek : List ℕ) (km : KeyManager)
      → km.initialized ≡ false
      → length nonce ≡ nonce_len
      → length wrap_nonce ≡ nonce_len
      → (wrapped : List ℕ) × (wrap_dek c
            (some wrap_nonce)
            dek
            (first_run_setup c (some salt) (some nonce) passphrase km).0
          ≡ ok wrapped)
        × ((unseal c passphrase
              (seal (first_run_setup c (some salt) (some nonce) passphrase km).0)).1
            ≡ none)
        × (unwrap_dek c wrapped
              (unseal c passphrase
                (seal (first_run_setup c (some salt) (some nonce) passphrase km).0)).0
            ≡ ok dek)
  unwrap_dek-unseal-seal passphrase salt nonce wrap_nonce dek km fresh twelve twelve' =
      let (_, open_now, v) = first_run_setup-IsSetUp passphrase salt nonce km fresh twelve in
      let (good, open_again, w) = unseal-IsSetUp passphrase _ (seal-IsSetUp passphrase _ v) in
      let (wrapped, made, read) = wrap_dek-IsSetUp passphrase wrap_nonce dek _ twelve' v open_now in
      (wrapped, made, good, read _ w (unseal-salt passphrase _ ∙ seal-salt _) open_again)

  -- Unseal fails exactly if the vault is not initialised, or is sealed and the key of the passphrase
  -- does not verify. A failure changes no field of the manager and no slice but the new one; the
  -- key of a wrong passphrase is zeroed.
  pub unseal-err :
      (passphrase : String) (km : KeyManager)
      → (((unseal c passphrase km).1 ≢ none) ↔ (
          (km.initialized ≡ false)
          ⊎ (km.initialized ≡ true)
            × (km.kek ≡ none)
            × (verify_kek c (derive_kek c passphrase km.salt) km.verification_blob ≡ false)))
        × ((unseal c passphrase km).1 ≢ none
            → ((unseal c passphrase km).0.kek ≡ km.kek)
              × ((unseal c passphrase km).0.salt ≡ km.salt)
              × ((unseal c passphrase km).0.verification_blob ≡ km.verification_blob)
              × ((q : ℕ)
                  → q ≢ km.memory.next
                  → (unseal c passphrase km).0.memory.cell q ≡ km.memory.cell q))
        × ((unseal c passphrase km).1 ≡ some VaultError.wrong_passphrase
            → (unseal c passphrase km).0.memory.cell km.memory.next
              ≡ zero_bytes (derive_kek c passphrase km.salt))
  unfolding unseal
  unseal-err passphrase km = (
    ground arith,
    λ h. (ground (arith, h), ground (arith, h), ground (arith, h), λ q n. ground (arith, h, n)),
    λ h. ground (arith, h),
  )
