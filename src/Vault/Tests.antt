-- ===== src/Vault/Tests.antt =====
-- A run of the vault with primitives that are simple enough to compute, and the theorems at it.
use subnetree.Prelude.{
  ℕ, ◌+◌, ◌≡◌, refl, true, false, List, [], ◌∷◌, Option, none, some, ◌==◌, nat_eq, string_eq,
  if◌then◌else◌, ok, arith,
}
use subnetree.Vault.Crypto.{Primitives, derive_kek, encrypt, decrypt, verify_kek, zero_bytes}
use subnetree.Prelude.{String, true, ◌==◌, string_eq, if◌then◌else◌}
use subnetree.Vault.Validation.{Value, text, validate_credential_data}
use subnetree.Vault.KeyManager.{
  KeyManager, VaultError, new_key_manager, seal, unseal, is_sealed, first_run_setup, wrap_dek,
  unwrap_dek, rotate_kek, rewrap, Rewrap, lift,
}
use subnetree.Vault.KeyManager.Cycle.{IsSetUp, first_run_setup-IsSetUp, unwrap_dek-unseal-seal}
use subnetree.Vault.KeyManager.Rotation.{unwrap_dek-rewrap, rewrap-seal}

abbrev weight : List ℕ → ℕ
weight [] = 0
weight (b ∷ bs) = b + weight bs

abbrev box_open : ℕ → List ℕ → Option (List ℕ)
box_open w [] = none
box_open w (t ∷ body) = if t == w then some body else none

opens : (w : ℕ) (plain : List ℕ) → box_open w (w ∷ plain) ≡ some plain
opens w plain = ground (arith, nat_eq.same_iff w w)

-- A sealed text carries the weight of its key.
abbrev toy : Primitives
toy = record {
  id_key = λ passphrase salt. (if passphrase == "secret" then 7 else 9) ∷ salt;
  new_cipher = λ key. true;
  gcm_seal = λ key nonce plain. weight key ∷ plain;
  gcm_open = λ key nonce bytes. box_open (weight key) bytes;
  new_cipher-id_key = λ passphrase salt. refl;
  gcm_open-gcm_seal = λ key nonce plain. opens (weight key) plain;
}

abbrev empty : KeyManager
empty = new_key_manager (record { cell = λ p. []; next = 0 })

abbrev salt1 : List ℕ
salt1 = 1 ∷ 2 ∷ []

abbrev nonce1 : List ℕ
nonce1 = 0 ∷ 0 ∷ 0 ∷ 0 ∷ 0 ∷ 0 ∷ 0 ∷ 0 ∷ 0 ∷ 0 ∷ 0 ∷ 1 ∷ []

abbrev opened : KeyManager
opened = (first_run_setup toy (some salt1) (some nonce1) "secret" empty).0

opened-IsSetUp : IsSetUp toy "secret" opened
opened-IsSetUp = (first_run_setup-IsSetUp toy "secret" salt1 nonce1 empty refl refl).2

opened-is_sealed : is_sealed opened ≡ false
opened-is_sealed = (first_run_setup-IsSetUp toy "secret" salt1 nonce1 empty refl refl).1

refused : (unseal toy "guess" (seal opened)).1 ≡ some VaultError.wrong_passphrase
unfolding unseal seal first_run_setup verify_kek decrypt encrypt
refused = refl

unwrap_dek-unseal-seal_example :
    (wrapped : List ℕ) × (wrap_dek toy (some nonce1) (5 ∷ 6 ∷ []) opened ≡ ok wrapped)
    × ((unseal toy "secret" (seal opened)).1 ≡ none)
    × (unwrap_dek toy wrapped (unseal toy "secret" (seal opened)).0 ≡ ok (5 ∷ 6 ∷ []))
unwrap_dek-unseal-seal_example =
    unwrap_dek-unseal-seal toy "secret" salt1 nonce1 nonce1 (5 ∷ 6 ∷ []) empty refl refl refl

unwrap_dek-rewrap_example :
    (wrapped : List ℕ) × (rewrapped : List ℕ) × (r : Rewrap) × (wrap_dek toy
        (some nonce1)
        (5 ∷ [])
        opened
      ≡ ok wrapped)
    × ((rotate_kek toy (some (3 ∷ [])) (some nonce1) "better" opened).1 ≡ ok r)
    × (rewrap toy r
          (some nonce1)
          wrapped
          (rotate_kek toy (some (3 ∷ [])) (some nonce1) "better" opened).0.memory
        ≡ ok rewrapped)
    × (unwrap_dek toy rewrapped (rotate_kek toy (some (3 ∷ [])) (some nonce1) "better" opened).0
        ≡ ok (5 ∷ []))
    × IsSetUp toy "better" (rotate_kek toy (some (3 ∷ [])) (some nonce1) "better" opened).0
unwrap_dek-rewrap_example =
    unwrap_dek-rewrap toy "secret" "better" (3 ∷ []) nonce1 nonce1 nonce1 (5 ∷ []) opened refl refl
      refl opened-IsSetUp opened-is_sealed

rewrap-seal_example :
    (wrapped : List ℕ) × (r : Rewrap) × (wrap_dek toy (some nonce1) (5 ∷ []) opened ≡ ok wrapped)
    × ((rotate_kek toy (some (3 ∷ [])) (some nonce1) "better" opened).1 ≡ ok r)
    × (rewrap toy r
          (some nonce1)
          wrapped
          (seal (rotate_kek toy (some (3 ∷ [])) (some nonce1) "better" opened).0).memory
        ≡ lift (encrypt toy (some nonce1) (zero_bytes (derive_kek toy "better" (3 ∷ []))) (5 ∷ [])))
rewrap-seal_example =
    rewrap-seal toy "secret" "better" (3 ∷ []) nonce1 nonce1 (5 ∷ []) opened (some nonce1) refl refl
      opened-IsSetUp opened-is_sealed

abbrev no_trim : String → String
no_trim s = s

abbrev login_data : String → Option Value
login_data f =
    if f == "username" then some (text "ann") else if f == "password" then some (text "x") else none

accepted : validate_credential_data no_trim "http_basic" (some login_data) ≡ none
unfolding validate_credential_data
accepted = refl
