-- ===== src/Tests/Versions.antt =====
-- The theorems about types/state.rs at concrete inputs.
use native.Mathlib.Omega.{arith}
use ryther_core.Base.{ℕ, ◌≡◌, ◌⊎◌, refl, none, some, [], ◌∷◌}
use ryther_core.Types.Uint.{from_u64}
use ryther_core.Types.State.{
  StateVersion, VersionChain, pending, aborted, add_version, read_for, mark_aborted,
}
use ryther_core.Types.State.Chain.{Descending, Strict}
use ryther_core.Types.State.Reads.{prefer, IsLatest, read_for-IsLatest, aborted_write_survives}

abbrev version_of : ℕ → ℕ → StateVersion
version_of q n = record { tx_sequence = q; value = some (from_u64 n); status = pending }

-- The newest version is aborted.
abbrev chain : VersionChain
chain = record {
  versions = record { tx_sequence = 5; value = none; status = aborted } ∷ version_of 2 20 ∷ [];
}

chain-Strict : Strict chain.versions
chain-Strict = ((omega arith, tt), (tt, tt))

chain-Descending : Descending chain.versions
chain-Descending = ((omega arith, tt), (tt, tt))

read_for-IsLatest_example : IsLatest 6 chain.versions (read_for chain 6)
read_for-IsLatest_example = read_for-IsLatest chain 6 chain-Descending

aborted_write_survives_example :
    let c' = mark_aborted (add_version (add_version chain (version_of 3 30)) (version_of 3 31)) 3 in
    (read_for c' 6 ≡ prefer 6 (version_of 3 30) (read_for chain 6))
    ⊎ (read_for c' 6 ≡ prefer 6 (version_of 3 31) (read_for chain 6))
aborted_write_survives_example =
    aborted_write_survives chain (version_of 3 30) (version_of 3 31) 6 refl chain-Strict
      (omega arith, (omega arith, tt))
