-- ===== src/Backup/Crypto.antt =====
-- internal/backup/crypto.go. Argon2id and AES-256-GCM are parameters: the key of a passphrase and a
-- salt, the sealing under a key and a nonce, and the opening, which refuses what was not sealed so.
-- A derived key has the 32 bytes that the cipher takes. The files are their contents.
use mathlib.Core.Path.{subst}
use gamwich.Prelude.{
  ℕ, ◌+◌, ◌≡◌, false, Option, none, some, List, ◌++◌, ltb, if◌then◌else◌, length, take, drop,
  length-append, take-append, drop-append, arith,
}
use gamwich.Prelude.Result.{Result, ok, err}
use gamwich.Text.{Text}

abbrev pub salt_size : ℕ
salt_size = 16

abbrev pub nonce_size : ℕ
nonce_size = 12

pub data CryptoError : Type 0 where
  too_small not_authentic : CryptoError

abbrev or_error : Option (List ℕ) → Result CryptoError (List ℕ)
or_error none = err not_authentic
or_error (some plaintext) = ok plaintext

module _ (derive_key : Text → List ℕ → List ℕ) (seal : List ℕ → List ℕ → List ℕ → List ℕ)
    (unseal : List ℕ → List ℕ → List ℕ → Option (List ℕ)) where
  -- `EncryptFile`, with the random nonce: salt, nonce and ciphertext.
  unfoldable pub encrypt_file : List ℕ → Text → List ℕ → List ℕ → List ℕ
  encrypt_file nonce passphrase salt plaintext =
      salt ++ (nonce ++ seal (derive_key passphrase salt) nonce plaintext)

  -- `DecryptFile`
  unfoldable pub decrypt_file : Text → List ℕ → Result CryptoError (List ℕ)
  decrypt_file passphrase file =
      let salt = take salt_size file in
      let nonce = take nonce_size (drop salt_size file) in
      let ciphertext = drop nonce_size (drop salt_size file) in
      if ltb (length file) (salt_size + nonce_size)
      then err too_small
      else or_error (unseal (derive_key passphrase salt) nonce ciphertext)

  -- What is encrypted under a salt of 16 bytes and a nonce of 12 decrypts to itself with the same
  -- passphrase, where the cipher opens what it has sealed.
  pub decrypt_file-encrypt_file :
      (opens : (key nonce plaintext : List ℕ)
        → unseal key nonce (seal key nonce plaintext) ≡ some plaintext)
      (nonce salt plaintext : List ℕ) (passphrase : Text)
      → length salt ≡ salt_size
      → length nonce ≡ nonce_size
      → decrypt_file passphrase (encrypt_file nonce passphrase salt plaintext) ≡ ok plaintext
  unfolding encrypt_file decrypt_file
  decrypt_file-encrypt_file opens nonce salt plaintext passphrase salted nonced =
      let key = derive_key passphrase salt in
      let sealed = seal key nonce plaintext in
      let file = salt ++ (nonce ++ sealed) in
      let rest : drop 16 file ≡ nonce ++ sealed =
        subst (λ n. drop n file ≡ nonce ++ sealed) salted (drop-append salt (nonce ++ sealed)) in
      let s : take 16 file ≡ salt =
        subst (λ n. take n file ≡ salt) salted (take-append salt (nonce ++ sealed)) in
      let n : take 12 (nonce ++ sealed) ≡ nonce =
        subst (λ k. take k (nonce ++ sealed) ≡ nonce) nonced (take-append nonce sealed) in
      let c : drop 12 (nonce ++ sealed) ≡ sealed =
        subst (λ k. drop k (nonce ++ sealed) ≡ sealed) nonced (drop-append nonce sealed) in
      let long : ltb (length file) 28 ≡ false =
        let e = length-append salt (nonce ++ sealed) in
        let f = length-append nonce sealed in ground (arith, e, f, salted, nonced) in
      rw (long, rest, s, n, c, opens key nonce plaintext)
