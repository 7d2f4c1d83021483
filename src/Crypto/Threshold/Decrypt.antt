-- ===== src/Crypto/Threshold/Decrypt.antt =====
-- crypto/threshold.rs: encryption under a key and decryption with shares of it.
use ryther_core.Base.{
  ℕ, ◌+◌, ◌^◌, ◌<◌, ◌≡◌, ◌≢◌, refl, ap, sym, subst, ltb→lt, ◌∙◌, arith, ◌⊎◌, inl, inr, Bool, Option,
  none, some, List, [], ◌∷◌, eqb, length, take, ltb, true, false, Bool-cases, All, eqb_iff,
}
use ryther_core.Crypto.Xor.{xor-xor}
use ryther_core.Crypto.Threshold.{
  SecretShare, ThresholdParams, ThresholdError, not_enough_shares, commitment_failed,
  EncryptedPayload, reconstruct, interpolate, xor_from, xor_encrypt, key_byte, split, encrypt,
  sealed, opened, decrypt, ◌>>=◌,
}

abbrev pub IsByte : ℕ → Type 0
IsByte b = b < 2 ^ 8

module _ (sha256 : List ℕ → ℕ) where
  xor_from-xor_from :
      (key nonce i : ℕ) (bytes : List ℕ)
      → All IsByte bytes
      → xor_from sha256 key nonce i (xor_from sha256 key nonce i bytes) ≡ bytes
  unfolding xor_from
  xor_from-xor_from key nonce i [] h = refl
  xor_from-xor_from key nonce i (b ∷ bytes) (h, hs) =
      rw (xor-xor 8 b (key_byte sha256 key nonce i) h)
        (ap (◌∷◌ b) (xor_from-xor_from key nonce (i + 1) bytes hs))

  payload_of {ℓ} :
      {Rng : Type ℓ} (o : Option (List SecretShare × Rng)) (key nonce : ℕ) (plaintext : List ℕ)
      (payload : EncryptedPayload) (rng2 : Rng)
      → ◌>>=◌ {B = EncryptedPayload × Rng} o
          (λ d. some (sealed sha256 key nonce plaintext d.0, d.1))
        ≡ some (payload, rng2)
      → (payload.ciphertext ≡ xor_encrypt sha256 plaintext key nonce)
        × (payload.nonce ≡ nonce)
        × (payload.commitment ≡ sha256 plaintext)
  payload_of none key nonce plaintext payload rng2 h = cc
  payload_of (some d) key nonce plaintext payload rng2 h = (cc, cc, cc)

  opened-encrypt :
      (key nonce : ℕ) (plaintext : List ℕ) (payload : EncryptedPayload)
      → All IsByte plaintext
      → payload.ciphertext ≡ xor_encrypt sha256 plaintext key nonce
      → payload.nonce ≡ nonce
      → payload.commitment ≡ sha256 plaintext
      → opened sha256 payload (inr key) ≡ inr plaintext
  unfolding opened xor_encrypt
  opened-encrypt key nonce plaintext payload bytes c n m =
      let back = xor_from-xor_from key nonce 0 plaintext bytes in
      rw (c, n, back, m, eqb_refl (sha256 plaintext)) refl
    where
      eqb_refl : (x : ℕ) → eqb x x ≡ true
      eqb_refl x = (eqb_iff x x).1 refl

  -- Whatever the random generators give: when `encrypt` returns a payload of a text of bytes, and
  -- `reconstruct` gives the key back from the shares, then `decrypt` gives the text back.
  pub decrypt-encrypt {ℓ} :
      {Rng : Type ℓ} (fill : Rng → ℕ × Rng) (params : ThresholdParams) (rng rng2 : Rng)
      (key nonce : ℕ) (plaintext validators : List ℕ) (payload : EncryptedPayload)
      (shares : List SecretShare)
      → All IsByte plaintext
      → encrypt sha256 fill params rng key nonce plaintext validators ≡ some (payload, rng2)
      → reconstruct params shares ≡ inr key
      → decrypt sha256 params payload shares ≡ inr plaintext
  unfolding encrypt decrypt xor_encrypt
  decrypt-encrypt fill params rng rng2 key nonce plaintext validators payload shares bytes done
        known =
      let (c, n, m) =
        payload_of (split fill params rng key validators) key nonce plaintext payload rng2 done in
      ap (opened sha256 payload) known ∙ opened-encrypt key nonce plaintext payload bytes c n m

  -- What an answer of `decrypt` says.
  abbrev pub Says :
      ThresholdParams → EncryptedPayload → List SecretShare → ThresholdError ⊎ List ℕ → Type 0
  Says params payload shares (inr plaintext) =
      (sha256 plaintext ≡ payload.commitment)
      × ((key : ℕ) × (reconstruct params shares ≡ inr key)
          × (plaintext ≡ xor_encrypt sha256 payload.ciphertext key payload.nonce))
  Says params payload shares (inl not_enough_shares) = length shares < params.threshold
  Says params payload shares (inl commitment_failed) =
      (key : ℕ) × (reconstruct params shares ≡ inr key)
      × (sha256 (xor_encrypt sha256 payload.ciphertext key payload.nonce) ≢ payload.commitment)
  Says params payload shares (inl _) = ⊥

  different : (b : Bool) → b ≡ true → b ≡ false → ⊥
  different true h g = ground arith
  different false h g = ground arith

  opened-Says :
      (params : ThresholdParams) (payload : EncryptedPayload) (shares : List SecretShare) (key : ℕ)
      → reconstruct params shares ≡ inr key
      → Says params payload shares (opened sha256 payload (inr key))
  unfolding opened
  opened-Says params payload shares key known =
      let plaintext = xor_encrypt sha256 payload.ciphertext key payload.nonce in
      let same = eqb_iff (sha256 plaintext) payload.commitment in
      elim (Bool-cases (eqb (sha256 plaintext) payload.commitment)) [
        | inl good ↦ rw (good) (same.0 good, (key, known, refl))
        | inr bad ↦
            rw (bad) (
              key,
              known,
              λ e. different (eqb (sha256 plaintext) payload.commitment) (same.1 e) bad,
            )
      ]

  reconstruct-cases :
      (params : ThresholdParams) (shares : List SecretShare)
      → ((reconstruct params shares ≡ inl not_enough_shares) × (length shares < params.threshold))
        ⊎ ((key : ℕ) × (reconstruct params shares ≡ inr key))
  unfolding reconstruct
  reconstruct-cases params shares = elim (Bool-cases (ltb (length shares) params.threshold)) [
    | inl few ↦ inl (rw (few) refl, ltb→lt (length shares) params.threshold few)
    | inr enough ↦ inr (
        rw (enough)
          (interpolate (take params.threshold shares) 0 (take params.threshold shares) 0, refl))
  ]

  -- `decrypt` of any payload with any shares, for every `sha256`: a text is returned only if its hash
  -- is the commitment, and it is then the ciphertext under the key that `reconstruct` gives;
  -- "commitment failed" only if that key gives a text with another hash; "not enough shares" only
  -- if there are fewer than the threshold; no other error is returned.
  pub decrypt-Says :
      (params : ThresholdParams) (payload : EncryptedPayload) (shares : List SecretShare)
      → Says params payload shares (decrypt sha256 params payload shares)
  unfolding decrypt opened
  decrypt-Says params payload shares = elim (reconstruct-cases params shares) [
    | inl few ↦ subst (λ r. Says params payload shares (opened sha256 payload r)) (sym few.0) few.1
    | inr found ↦
        subst (λ r. Says params payload shares (opened sha256 payload r)) (sym found.1)
          (opened-Says params payload shares found.0 found.1)
  ]
