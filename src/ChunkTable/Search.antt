-- ===== src/ChunkTable/Search.antt =====
-- The binary search `partition_by_end` of src/chunk_table.rs.
use qzt.Base.{ℕ, zero, suc, ◌+◌, ◌-◌, ◌/◌, ◌≤◌, ◌<◌, ◌≡◌, refl, inl, inr, List, arith}
use qzt.Base.{length, get_elem?, some, Bool-cases, ltb, leb, ltb→lt, leb→le, ltb-false, leb-false}
use qzt.Error.{Result, ok}
use qzt.ChunkTable.{ChunkEntry, partition_loop, partition_by_end}

module _ (entries : List ChunkEntry) (target : ℕ) (end_of : ChunkEntry → Result ℕ)
    (end : ℕ → ℕ) where
  -- `end_of` succeeds on every entry, and `end i` is its value on the i-th.
  abbrev pub HasEnds : Type 0
  HasEnds =
      (i : ℕ)
      → i < length entries
      → (e : ChunkEntry) × (get_elem? entries i ≡ some e) × (end_of e ≡ ok (end i))

  -- `r` splits the entries into those that end at `target` or before, and those that end later.
  abbrev pub Splits : ℕ → Type 0
  Splits r =
      (r ≤ length entries)
      × ((i : ℕ) → i < r → end i ≤ target)
      × ((i : ℕ) → r ≤ i → i < length entries → target < end i)

  abbrev pub Ascending : Type 0
  Ascending = (i j : ℕ) → i ≤ j → j < length entries → end i ≤ end j

  partition_loop-Splits :
      HasEnds
      → Ascending
      → (rounds low high : ℕ) → low ≤ high
      → high ≤ length entries
      → high - low ≤ rounds
      → ((i : ℕ) → i < low → end i ≤ target)
      → ((i : ℕ) → high ≤ i → i < length entries → target < end i)
      → (r : ℕ) × (partition_loop rounds entries target end_of low high ≡ ok r) × Splits r
  unfolding partition_loop
  partition_loop-Splits has up zero low high h₁ h₂ h₃ below above =
      (low, refl, (omega arith, below, λ i p. above i (omega arith)))
  partition_loop-Splits has up (suc rounds) low high h₁ h₂ h₃ below above =
      elim (Bool-cases (ltb low high)) [
        | inr done ↦
            let same = ltb-false low high done in
            (low, rw done refl, (omega arith, below, λ i p. above i (omega arith)))
        | inl more ↦
            let mid = low + (high - low) / 2 in
            let lt = ltb→lt low high more in
            let (e, at_mid, its_end) = has mid (omega arith) in
            elim (Bool-cases (leb (end mid) target)) [
              | inl right ↦
                  let le = leb→le (end mid) target right in
                  let (r, run, split) =
                    partition_loop-Splits has up rounds (mid + 1) high (omega arith) h₂
                      (omega arith) (λ i p. omega (arith, up i mid (omega arith) (omega arith)))
                      above in
                  (r, rw (more, at_mid, its_end, right) run, split)
              | inr left ↦
                  let (r, run, split) =
                    partition_loop-Splits has up rounds low mid (omega arith) (omega arith)
                      (omega arith) below
                      (λ i p q. omega (arith, up mid i p q, leb-false (end mid) target left)) in
                  (r, rw (more, at_mid, its_end, left) run, split)
            ]
      ]

  -- Where the ends can be computed and do not descend, `partition_by_end` returns the number of
  -- entries that end at the target or before: they are the first ones.
  pub partition_by_end-Splits :
      HasEnds → Ascending → (r : ℕ) × (partition_by_end entries target end_of ≡ ok r) × Splits r
  unfolding partition_by_end
  partition_by_end-Splits has up =
      partition_loop-Splits has up (length entries) 0 (length entries) (omega arith) (omega arith)
        (omega arith) (λ i p. absurd (omega arith)) (λ i p q. absurd (omega arith))
