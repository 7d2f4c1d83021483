-- ===== src/Tests/Crypto.antt =====
-- The theorems about crypto/threshold.rs at concrete inputs.
use native.Mathlib.Omega.{arith}
use ryther_core.Base.{ℕ, ◌+◌, ◌*◌, ◌^◌, ◌≡◌, refl, inr, some, List, [], ◌∷◌}
use ryther_core.Crypto.Xor.{xor}
use ryther_core.Crypto.Threshold.{
  SecretShare, ThresholdParams, EncryptedPayload, draw, split, reconstruct, sealed, encrypt,
  decrypt, evaluate_polynomial,
}
use ryther_core.Crypto.Threshold.Field.{xor_all}
use ryther_core.Crypto.Threshold.Split.{two_values, split-two_values, reconstruct-split}
use ryther_core.Crypto.Threshold.Decrypt.{decrypt-encrypt, Says, decrypt-Says}
use ryther_core.Crypto.Dkg.{DkgSession, finalize}
use ryther_core.Crypto.Dkg.Combine.{sum_polynomials, dealt, finalize-sum_polynomials}

-- A stand-in for the hash: the first byte of its input, and zeros.
abbrev hash : List ℕ → ℕ
hash [] = 0
hash (b ∷ bytes) = b * 256 ^ 31

-- A stand-in for the generator: the next number.
abbrev fill : ℕ → ℕ × ℕ
fill n = (n, n + 1)

abbrev two_of_three : ThresholdParams
two_of_three = record { total_shares = 3; threshold = 2 }

abbrev key : ℕ
key = 7 * 256 ^ 31

split-two_values_example :
    split fill two_of_three 5 9 (61 ∷ 62 ∷ 63 ∷ [])
    ≡ some (two_values 9 (xor_all (9 ∷ 5 ∷ [])) 1 3 (61 ∷ 62 ∷ 63 ∷ []), 6)
unfolding draw
split-two_values_example =
    split-two_values fill two_of_three 5 9 (61 ∷ 62 ∷ 63 ∷ []) (omega arith) (omega arith)

reconstruct-split_example :
    (shares : List SecretShare) × (split fill two_of_three 5 9 (61 ∷ 62 ∷ 63 ∷ [])
      ≡ some (shares, 6))
    × (reconstruct two_of_three shares ≡ inr 5)
reconstruct-split_example =
    reconstruct-split fill 3 5 9 (61 ∷ 62 ∷ 63 ∷ []) (omega arith) (omega arith) (omega arith)
      (omega arith)

-- The shares of a run of the generator from which the key comes back.
abbrev shares : List SecretShare
shares =
    record { index = 1; value = key; holder = 61 }
    ∷ record { index = 2; value = 0; holder = 62 }
    ∷ []

abbrev payload : EncryptedPayload
payload =
    sealed hash key 1 (104 ∷ 105 ∷ [])
      (two_values key (xor_all (key ∷ 5 ∷ [])) 1 3 (61 ∷ 62 ∷ 63 ∷ []))

encrypts :
    encrypt hash fill two_of_three 5 key 1 (104 ∷ 105 ∷ []) (61 ∷ 62 ∷ 63 ∷ []) ≡ some (payload, 6)
unfolding encrypt xor_all xor
encrypts = refl

reconstructs : reconstruct two_of_three shares ≡ inr key
unfolding reconstruct xor
reconstructs = refl

decrypt-encrypt_example : decrypt hash two_of_three payload shares ≡ inr (104 ∷ 105 ∷ [])
decrypt-encrypt_example =
    decrypt-encrypt hash fill two_of_three 5 6 key 1 (104 ∷ 105 ∷ []) (61 ∷ 62 ∷ 63 ∷ []) payload
      shares (omega arith, (omega arith, tt)) encrypts reconstructs

decrypt-Says_example :
    Says hash two_of_three payload shares (decrypt hash two_of_three payload shares)
decrypt-Says_example = decrypt-Says hash two_of_three payload shares

-- Two dealers' shares for the second of three validators.
abbrev session : DkgSession
session = record {
  id = 1;
  params = two_of_three;
  validators = 61 ∷ 62 ∷ 63 ∷ [];
  commitments = [];
  received_shares = dealt 2 62 ((61, 9 ∷ 5 ∷ []) ∷ (63, 4 ∷ 6 ∷ []) ∷ []);
  our_polynomial = some (1 ∷ 2 ∷ []);
}

finalize-sum_polynomials_example :
    finalize session
    ≡ some (record {
      index = 2;
      value = evaluate_polynomial (sum_polynomials (9 ∷ 5 ∷ []) ((4 ∷ 6 ∷ []) ∷ [])) 2;
      holder = 62;
    })
finalize-sum_polynomials_example =
    finalize-sum_polynomials session 2 62 61 (9 ∷ 5 ∷ []) ((63, 4 ∷ 6 ∷ []) ∷ []) (omega arith)
      (omega arith) refl (omega arith) (refl, tt) refl
