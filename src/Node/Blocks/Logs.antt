-- ===== src/Node/Blocks/Logs.antt =====
-- What `get_logs` of node/blocks.rs returns.
use mathlib.Core.List.{Memᴰ}
use mathlib.Core.List.Memᴰ
use ryther_core.Base.{
  ℕ, zero, suc, ◌+◌, ◌-◌, ◌<◌, ◌≤◌, ◌≡◌, ◌↔◌, inl, inr, Bool, refl, true, false, ◌&&◌, Option, List,
  [], ◌∷◌, arith, leb, Bool-cases, nat_eq,
}
use ryther_core.Dict
use ryther_core.Types.Block.{Log}
use ryther_core.Node.Blocks.Topics.{HasAddress, HasTopics, address_matches_iff, topics_match_iff}
use ryther_core.Node.Blocks.{
  BlockStore, or_empty, address_matches, topics_match, filter_logs, collect_logs, get_logs,
}

-- The log was stored for the block.
abbrev pub IsLogged : BlockStore → ℕ → Log → Type 0
IsLogged s number log = Memᴰ log (or_empty (Dict.get number s.logs_by_block))

module _ (addresses : Option (List ℕ)) (topics : Option (List (Option (List ℕ)))) where
  abbrev Passes : Log → Type 0
  Passes log = (address_matches addresses log && topics_match topics log) ≡ true

  filter_logs-Memᴰ :
      (logs : List Log) (log : Log)
      → Memᴰ log (filter_logs addresses topics logs)
      → Memᴰ log logs × Passes log
  unfolding filter_logs
  filter_logs-Memᴰ [] log m = absurd (Memᴰ.not-nil m)
  filter_logs-Memᴰ (x ∷ logs) log m =
      elim (Bool-cases (address_matches addresses x && topics_match topics x)) [
        | inl e ↦
            let m' : Memᴰ log (x ∷ filter_logs addresses topics logs) = rw e at m in
            elim (Memᴰ.cases_cons m') [
              | inl eq ↦ (Memᴰ.head eq, rw eq e)
              | inr later ↦
                  let found = filter_logs-Memᴰ logs log later in (Memᴰ.tail found.0, found.1)
            ]
        | inr e ↦ let found = filter_logs-Memᴰ logs log (rw e at m) in (Memᴰ.tail found.0, found.1)
      ]

  Memᴰ-filter_logs :
      (logs : List Log) (log : Log)
      → Memᴰ log logs
      → Passes log
      → Memᴰ log (filter_logs addresses topics logs)
  unfolding filter_logs
  Memᴰ-filter_logs [] log m ok = absurd (Memᴰ.not-nil m)
  Memᴰ-filter_logs (x ∷ logs) log m ok =
      elim (Bool-cases (address_matches addresses x && topics_match topics x)) [
        | inl e ↦ rw e (elim (Memᴰ.cases_cons m) [
          | inl eq ↦ Memᴰ.head eq
          | inr later ↦ Memᴰ.tail (Memᴰ-filter_logs logs log later ok)
        ])
        | inr e ↦ rw e (elim (Memᴰ.cases_cons m) [
          | inl eq ↦
              let no : (address_matches addresses log && topics_match topics log) ≡ false =
                rw eq e in
              absurd (cc (no, ok))
          | inr later ↦ Memᴰ-filter_logs logs log later ok
        ])
      ]

  module _ (s : BlockStore) where
    collect_logs-Memᴰ :
        (count number : ℕ) (log : Log)
        → Memᴰ log (collect_logs s addresses topics count number)
        → (n : ℕ) × (number ≤ n) × (n < number + count) × IsLogged s n log × Passes log
    unfolding collect_logs
    collect_logs-Memᴰ zero number log m = absurd (Memᴰ.not-nil m)
    collect_logs-Memᴰ (suc count) number log m =
        let here = or_empty (Dict.get number s.logs_by_block) in
        elim (Memᴰ.append_cases (filter_logs addresses topics here) m) [
          | inl front ↦
              let found = filter_logs-Memᴰ here log front in
              (number, omega arith, omega arith, found.0, found.1)
          | inr back ↦
              let (n, low, high, held, ok) = collect_logs-Memᴰ count (suc number) log back in
              (n, omega arith, omega arith, held, ok)
        ]

    Memᴰ-collect_logs :
        (count number n : ℕ) (log : Log)
        → number ≤ n
        → n < number + count
        → IsLogged s n log
        → Passes log
        → Memᴰ log (collect_logs s addresses topics count number)
    unfolding collect_logs
    Memᴰ-collect_logs zero number n log low high held ok = absurd (omega arith)
    Memᴰ-collect_logs (suc count) number n log low high held ok =
        let here = filter_logs addresses topics (or_empty (Dict.get number s.logs_by_block)) in
        elim (Bool-cases (leb n number)) [
          | inl le ↦
              let same : n ≡ number = ground (arith, le) in
              Memᴰ.append_left (collect_logs s addresses topics count (suc number)) (
                Memᴰ-filter_logs (or_empty (Dict.get number s.logs_by_block)) log (rw same at held)
                  ok)
          | inr gt ↦ Memᴰ.append_right here (
              Memᴰ-collect_logs count (suc number) n log (ground (arith, gt)) (omega arith) held ok)
        ]

    -- `get_logs` returns exactly the logs stored for a block of the range whose address is one of
    -- the given ones, if any are given, and that have, if topic filters are given, at every
    -- position for which the filter lists topics, a topic, and one of those.
    pub get_logs-Memᴰ :
        (first last : ℕ) (log : Log)
        → Memᴰ log (get_logs s first last addresses topics) ↔ (
            (n : ℕ) × (first ≤ n)
            × (n ≤ last)
            × IsLogged s n log
            × HasAddress addresses log
            × HasTopics topics log)
    unfolding get_logs
    get_logs-Memᴰ first last log =
        let of_address = address_matches_iff addresses log in
        let of_topics = topics_match_iff topics log in
        (
          λ m.
              let (n, low, high, held, ok) = collect_logs-Memᴰ (suc last - first) first log m in
              let (yes_address, yes_topics) =
                both (address_matches addresses log) (topics_match topics log) ok in
              (n, low, omega arith, held, of_address.0 yes_address, of_topics.0 yes_topics),
          λ (n, low, high, held, yes_address, yes_topics).
              Memᴰ-collect_logs (suc last - first) first n log low (omega arith) held
                (rw (of_address.1 yes_address, of_topics.1 yes_topics) refl),
        )
      where
        both : (a b : Bool) → (a && b) ≡ true → (a ≡ true) × (b ≡ true)
        both a b h = ground arith
