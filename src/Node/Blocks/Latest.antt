-- ===== src/Node/Blocks/Latest.antt =====
-- The latest block of node/blocks.rs.
use ryther_core.Base.{
  ℕ, ◌≤◌, ◌≡◌, inl, inr, some, List, [], ◌∷◌, ltb, eqb, eqb_iff, arith, ◌⊎◌, Bool-cases, nat_eq,
  sym,
}
use ryther_core.Dict
use ryther_core.Dict.Laws.{get-insert, get-insert_cases}
use ryther_core.Types.Block.{Block}
use ryther_core.Node.Blocks.{
  BlockStore, new, insert_block, get_by_number, latest_number, latest_block,
}

pub insert_all : BlockStore → List Block → BlockStore
insert_all s [] = s
insert_all s (b ∷ blocks) = insert_all (insert_block s b) blocks

-- The latest number is that of a stored block, and no stored block has a higher one.
pub record IsCurrent (s : BlockStore) : Type 0 where
  pub block : Block
  pub stored : get_by_number s s.latest ≡ some block
  pub highest : (n : ℕ) (b : Block) → get_by_number s n ≡ some b → n ≤ s.latest
  pub numbered : (n : ℕ) (b : Block) → get_by_number s n ≡ some b → b.number ≡ n

module _ (s : BlockStore) (b : Block) (i : IsCurrent s) where
  inserted_cases :
      (n : ℕ) (c : Block)
      → get_by_number (insert_block s b) n ≡ some c
      → (n ≤ b.number ⊎ (n ≤ s.latest)) × (c.number ≡ n)
  unfolding insert_block get_by_number
  inserted_cases n c h = elim (get-insert_cases n b.number b s.by_number c h) [
    | inl (eq, same) ↦ (inl (omega arith), rw (sym same) eq)
    | inr (_, old) ↦ (inr (i.highest n c old), i.numbered n c old)
  ]

  insert_block-IsCurrent : IsCurrent (insert_block s b)
  unfolding insert_block get_by_number
  insert_block-IsCurrent =
      let entry = λ (n : ℕ). get-insert n b.number b s.by_number in
      let numbered = λ (n : ℕ) (c : Block) (h : get_by_number (insert_block s b) n ≡ some c).
        (inserted_cases n c h).1 in
      elim (Bool-cases (ltb s.latest b.number)) [
        | inl newer ↦ record {
          block = b;
          stored = rw newer (ground (arith, entry b.number, eqb_iff b.number b.number));
          highest = λ n c h. rw newer (ground (arith, (inserted_cases n c h).0, newer));
          numbered = numbered;
        }
        | inr older ↦ elim (Bool-cases (eqb b.number s.latest)) [
          | inl again ↦ record {
            block = b;
            stored = rw older (ground (arith, entry s.latest, again));
            highest = λ n c h. rw older (ground (arith, (inserted_cases n c h).0, older));
            numbered = numbered;
          }
          | inr other ↦ record {
            block = i.block;
            stored = rw older (ground (arith, entry s.latest, other, i.stored));
            highest = λ n c h. rw older (ground (arith, (inserted_cases n c h).0, older));
            numbered = numbered;
          }
        ]
      ]

insert_all-IsCurrent :
    (s : BlockStore) (blocks : List Block) → IsCurrent s → IsCurrent (insert_all s blocks)
unfolding insert_all
insert_all-IsCurrent s [] i = i
insert_all-IsCurrent s (b ∷ blocks) i =
    insert_all-IsCurrent (insert_block s b) blocks (insert_block-IsCurrent s b i)

first-only :
    (b : Block) (n : ℕ) (c : Block)
    → get_by_number (insert_block new b) n ≡ some c
    → (b.number ≡ n) × (c.number ≡ n)
unfolding insert_block get_by_number new Dict.get
first-only b n c h = elim (get-insert_cases n b.number b [] c h) [
  | inl (eq, same) ↦ (eq, rw (sym same) eq)
  | inr (_, old) ↦ absurd (cc old)
]

first-IsCurrent : (b : Block) → IsCurrent (insert_block new b)
unfolding insert_block get_by_number new
first-IsCurrent b =
    let entry = λ (n : ℕ). get-insert n b.number b [] in
    let numbered = λ (n : ℕ) (c : Block) (h : get_by_number (insert_block new b) n ≡ some c).
      (first-only b n c h).1 in
    elim (Bool-cases (ltb 0 b.number)) [
      | inl newer ↦ record {
        block = b;
        stored = rw newer (ground (arith, entry b.number, eqb_iff b.number b.number));
        highest = λ n c h. rw newer (omega (arith, (first-only b n c h).0));
        numbered = numbered;
      }
      | inr older ↦ record {
        block = b;
        stored = rw older (ground (arith, entry 0, older));
        highest = λ n c h. rw older (ground (arith, (first-only b n c h).0, older));
        numbered = numbered;
      }
    ]

-- After any sequence of insertions that is not empty, there is a latest block: it is stored under
-- the latest number, carries that number, and no block is stored under a higher one.
latest_block_lem :
    (first : Block) (blocks : List Block)
    → let s = insert_all (insert_block new first) blocks in
      (b : Block) × (latest_block s ≡ some b)
      × (b.number ≡ latest_number s)
      × ((n : ℕ) (c : Block) → get_by_number s n ≡ some c → n ≤ latest_number s)
unfolding latest_block latest_number
latest_block_lem first blocks =
    let s = insert_all (insert_block new first) blocks in
    let i = insert_all-IsCurrent (insert_block new first) blocks (first-IsCurrent first) in
    (i.block, i.stored, i.numbered s.latest i.block i.stored, i.highest)
