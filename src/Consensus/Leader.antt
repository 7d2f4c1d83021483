-- ===== src/Consensus/Leader.antt =====
-- consensus/leader.rs. `sha256` is a parameter. The remainder by a total stake of 0 panics in the
-- source; a valid set that is not empty has a positive total.
pub mod Election
pub mod Order
use ryther_core.Base.{
  ℕ, ◌%◌, Bool, true, false, Option, none, some, List, [], ◌∷◌, ◌++◌, if◌then◌else◌, ltb, take,
  add64,
}
use ryther_core.Bytes.{be_bytes, le_bytes, from_le_bytes}
use ryther_core.Sort.{sort_by_key}
use ryther_core.Types.Validator.{ValidatorSet, is_empty, iter}

abbrev pub id_of : ℕ × ℕ → ℕ
id_of (id, stake) = id

-- The loop over the validators in canonical order.
unfoldable pub select : List (ℕ × ℕ) → ℕ → ℕ → Option ℕ
select [] cumulative target = none
select ((id, stake) ∷ validators) cumulative target =
    let cumulative' = add64 cumulative stake in
    let rest = select validators cumulative' target in
    if ltb target cumulative' then some id else rest

unfoldable pub random_value : (List ℕ → ℕ) → ℕ → ℕ → ℕ
random_value sha256 round seed =
    from_le_bytes (take 8 (be_bytes 32 (sha256 (le_bytes 8 round ++ be_bytes 32 seed))))

unfoldable pub elect_leader : (List ℕ → ℕ) → ValidatorSet → ℕ → ℕ → Option ℕ
unfolding select random_value
elect_leader sha256 s round seed =
    if is_empty s
    then none
    else select (sort_by_key id_of (iter s)) 0 (random_value sha256 round seed % s.total_stake)

unfoldable pub derive_next_seed : (List ℕ → ℕ) → ℕ → ℕ
derive_next_seed sha256 anchor_id = sha256 (be_bytes 32 anchor_id)
