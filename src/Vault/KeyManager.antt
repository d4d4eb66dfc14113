-- ===== src/Vault/KeyManager.antt =====
-- internal/vault/keymanager.go. Keys are slices in a memory, since ZeroBytes overwrites them in
-- place and the rewrap function of RotateKEK holds on to two of them. Each method runs under the
-- manager's lock and is one step.
pub mod Cycle
pub mod Rotation
use subnetree.Prelude.{
  ℕ, ◌+◌, String, Bool, true, false, List, [], Option, none, some, ◌==◌, nat_eq, if◌then◌else◌,
  Result, ok, err,
}
use subnetree.Vault.Crypto.{
  Primitives, CryptoError, zero_bytes, generate_salt, derive_kek, encrypt, decrypt,
  create_verification_blob, verify_kek,
}

-- Slices by their address; `next` is the next free one.
pub record Memory : Type 0 where
  pub cell : ℕ → List ℕ
  pub next : ℕ

abbrev write : ℕ → List ℕ → Memory → Memory
write p bs m = record m { cell = λ q. if p == q then bs else m.cell q }

abbrev pub allocate : List ℕ → Memory → ℕ × Memory
allocate bs m =
    (m.next, record { cell = λ q. if m.next == q then bs else m.cell q; next = m.next + 1 })

abbrev pub zero_at : ℕ → Memory → Memory
zero_at p m = write p (zero_bytes (m.cell p)) m

-- `kek` is `none` where the source has nil.
pub record KeyManager : Type 0 where
  pub kek : Option ℕ
  pub salt : List ℕ
  pub verification_blob : List ℕ
  pub initialized : Bool
  pub memory : Memory

abbrev pub new_key_manager : Memory → KeyManager
new_key_manager m = record {
  kek = none;
  salt = [];
  verification_blob = [];
  initialized = false;
  memory = m;
}

pub data VaultError : Type 0 where
  not_initialized already_initialized vault_sealed wrong_passphrase : VaultError
  crypto : CryptoError → VaultError

abbrev pub initialize : List ℕ → List ℕ → KeyManager → KeyManager
initialize salt blob km = record km { salt = salt; verification_blob = blob; initialized = true }

abbrev pub is_sealed : KeyManager → Bool
is_sealed km = elim km.kek [ none ↦ true | some _ ↦ false ]

abbrev pub is_initialized : KeyManager → Bool
is_initialized km = km.initialized

unfoldable pub seal : KeyManager → KeyManager
seal km = elim km.kek [
  | none ↦ km
  | some p ↦ record km { kek = none; memory = zero_at p km.memory }
]

-- The function that RotateKEK returns: the copy of the old key, and the slice of the new key, which
-- it shares with the manager.
pub record Rewrap : Type 0 where
  pub old_kek : ℕ
  pub new_kek : ℕ

abbrev pub lift : Result CryptoError (List ℕ) → Result VaultError (List ℕ)
lift (ok bs) = ok bs
lift (err e) = err (VaultError.crypto e)

module _ (c : Primitives) where
  unfoldable pub unseal : String → KeyManager → KeyManager × Option VaultError
  unseal passphrase km =
      if km.initialized
      then elim km.kek [
        | some _ ↦ (km, none)
        | none ↦
            let key = derive_kek c passphrase km.salt in
            let (p, m) = allocate key km.memory in
            if verify_kek c key km.verification_blob
            then (record km { kek = some p; memory = m }, none)
            else (record km { memory = zero_at p m }, some VaultError.wrong_passphrase)
      ]
      else (km, some VaultError.not_initialized)

  -- The salt and the verification blob that are returned are the manager's.
  unfoldable pub first_run_setup :
      Option (List ℕ) → Option (List ℕ) → String → KeyManager → KeyManager × Option VaultError
  first_run_setup random_salt random_nonce passphrase km =
      if km.initialized
      then (km, some VaultError.already_initialized)
      else elim (generate_salt random_salt) [
        | err e ↦ (km, some (VaultError.crypto e))
        | ok salt ↦
            let key = derive_kek c passphrase salt in
            let (p, m) = allocate key km.memory in
            elim (create_verification_blob c random_nonce key) [
              | err e ↦ (record km { memory = zero_at p m }, some (VaultError.crypto e))
              | ok blob ↦ (
                record {
                  kek = some p;
                  salt = salt;
                  verification_blob = blob;
                  initialized = true;
                  memory = m;
                },
                none,
              )
            ]
      ]

  unfoldable pub wrap_dek : Option (List ℕ) → List ℕ → KeyManager → Result VaultError (List ℕ)
  wrap_dek random dek km = elim km.kek [
    | none ↦ err VaultError.vault_sealed
    | some p ↦ lift (encrypt c random (km.memory.cell p) dek)
  ]

  unfoldable pub unwrap_dek : List ℕ → KeyManager → Result VaultError (List ℕ)
  unwrap_dek wrapped km = elim km.kek [
    | none ↦ err VaultError.vault_sealed
    | some p ↦ lift (decrypt c (km.memory.cell p) wrapped)
  ]

  -- The copy of the old key is allocated behind the new key, and the old key is zeroed.
  unfoldable pub rotate_kek :
      Option (List ℕ)
      → Option (List ℕ)
      → String
      → KeyManager
      → KeyManager × Result VaultError Rewrap
  rotate_kek random_salt random_nonce passphrase km = elim km.kek [
    | none ↦ (km, err VaultError.vault_sealed)
    | some old ↦ elim (generate_salt random_salt) [
      | err e ↦ (km, err (VaultError.crypto e))
      | ok salt ↦
          let key = derive_kek c passphrase salt in
          let (p, m) = allocate key km.memory in
          elim (create_verification_blob c random_nonce key) [
            | err e ↦ (record km { memory = zero_at p m }, err (VaultError.crypto e))
            | ok blob ↦
                let (copy, m') = allocate (m.cell old) m in
                (
                  record {
                    kek = some p;
                    salt = salt;
                    verification_blob = blob;
                    initialized = km.initialized;
                    memory = zero_at old m';
                  },
                  ok (record { old_kek = copy; new_kek = p }),
                )
          ]
    ]
  ]

  -- A call of the function that RotateKEK returned. The DEK that it zeroes in the end is its own.
  unfoldable pub rewrap : Rewrap → Option (List ℕ) → List ℕ → Memory → Result VaultError (List ℕ)
  rewrap r random wrapped m = elim (decrypt c (m.cell r.old_kek) wrapped) [
    | err e ↦ err (VaultError.crypto e)
    | ok dek ↦ lift (encrypt c random (m.cell r.new_kek) dek)
  ]
