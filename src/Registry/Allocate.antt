-- ===== src/Registry/Allocate.antt =====
-- `allocateNodeId` of NodeRegistry.cpp: it gives the lowest free ID, and finds one while the
-- registry is not full.
use mathlib.Core.Path.{subst}
use radio_sensors.Prelude.{
  ℕ, zero, suc, ◌+◌, ◌≤◌, ◌<◌, ◌≡◌, ◌≢◌, ◌⊎◌, inl, inr, refl, ◌∙◌, List, [], ◌∷◌, none, some, arith,
  length, Bool-cases, Option-cases, ◌==◌, if◌then◌else◌,
}
use radio_sensors.Registry.{
  NodeRecord, NodeRegistry, find_first, has_id, allocate_from, allocate_node_id, max_nodes,
  unprovisioned_node_id, first_node_id,
}

-- Every ID from `low` on and below `high` is in use.
abbrev pub AllUsed : List NodeRecord → ℕ → ℕ → Type 0
AllUsed live low high =
    (j : ℕ) → low ≤ j → j < high → (a : NodeRecord) × (find_first (has_id j) live ≡ some a)

AllUsed-empty : (live : List NodeRecord) (c : ℕ) → AllUsed live c c
AllUsed-empty live c j h k = absurd (omega arith)

AllUsed-cons :
    (live : List NodeRecord) (c high : ℕ) (a : NodeRecord)
    → find_first (has_id c) live ≡ some a
    → AllUsed live (c + 1) high
    → AllUsed live c high
AllUsed-cons live c high a e u j h k = elim (Bool-cases (c == j)) [
  | inl same ↦ (a, subst (λ (t : ℕ). find_first (has_id t) live ≡ some a) (ground arith) e)
  | inr other ↦ u j (ground arith) k
]

-- What the loop returns: the first free candidate, or 0 where all are in use.
abbrev pub Allocated : List NodeRecord → ℕ → ℕ → ℕ → Type 0
Allocated live low high id =
    ((id ≡ unprovisioned_node_id) × AllUsed live low high)
    ⊎ ((low ≤ id) × (id < high) × (find_first (has_id id) live ≡ none) × AllUsed live low id)

allocate_from-Allocated :
    (rounds candidate : ℕ) (live : List NodeRecord)
    → Allocated live candidate (candidate + rounds) (allocate_from rounds candidate live)
unfolding allocate_from
allocate_from-Allocated zero candidate live = inl (refl, λ j h k. absurd (omega arith))
allocate_from-Allocated (suc rounds) candidate live =
    elim (Option-cases (find_first (has_id candidate) live)) [
      | inl e ↦
          rw (e, allocate_from) (inr (omega arith, omega arith, e, AllUsed-empty live candidate))
      | inr (a, e) ↦
          rw (e, allocate_from)
            (elim (allocate_from-Allocated rounds (candidate + 1) live) [
              | inl (z, u) ↦ inl (z, λ j h k. AllUsed-cons live candidate _ a e u j h (omega arith))
              | inr (low, high, free, u) ↦ inr (
                omega (arith, low),
                omega (arith, high),
                free,
                AllUsed-cons live candidate _ a e u,
              )
            ])
    ]

-- The allocation gives the lowest ID from 1 to 99 that no node has, or 0 where all are in use.
pub allocate_node_id-Allocated :
    (r : NodeRegistry) → Allocated r.live first_node_id 100 (allocate_node_id r)
unfolding allocate_node_id
allocate_node_id-Allocated r = allocate_from-Allocated 99 1 r.live

-- The first entry with an ID taken out.
without_id : ℕ → List NodeRecord → List NodeRecord
without_id id [] = []
without_id id (x ∷ xs) = if x.node_id == id then xs else x ∷ without_id id xs

length-without_id :
    (id : ℕ) (xs : List NodeRecord) (a : NodeRecord)
    → find_first (has_id id) xs ≡ some a
    → suc (length (without_id id xs)) ≡ length xs
unfolding without_id find_first
length-without_id id [] a h = cc
length-without_id id (x ∷ xs) a h = ground (arith, length-without_id id xs a)

find_first-without_id :
    (id j : ℕ) (xs : List NodeRecord)
    → j ≢ id
    → find_first (has_id j) (without_id id xs) ≡ find_first (has_id j) xs
unfolding without_id find_first
find_first-without_id id j [] h = refl
find_first-without_id id j (x ∷ xs) h = ground (arith, find_first-without_id id j xs)

-- As many different IDs in use need as many records.
length-AllUsed : (n : ℕ) (xs : List NodeRecord) → AllUsed xs 1 (suc n) → n ≤ length xs
length-AllUsed zero xs u = omega arith
length-AllUsed (suc n) xs u =
    let (a, e) = u (suc n) (omega arith) (omega arith) in
    omega (
      arith,
      length-without_id (suc n) xs a e,
      length-AllUsed n (without_id (suc n) xs) (λ j h k.
          let (b, f) = u j h (omega arith) in
          (b, find_first-without_id (suc n) j xs (λ (s : j ≡ suc n). omega arith) ∙ f)),
    )

-- While the registry has room for a node, there is an ID for it.
pub allocate_node_id-ne-zero :
    (r : NodeRegistry) → length r.live < max_nodes → allocate_node_id r ≢ unprovisioned_node_id
allocate_node_id-ne-zero r h e = elim (allocate_node_id-Allocated r) [
  | inl (_, u) ↦ omega (arith, length-AllUsed 99 r.live u)
  | inr (low, _, _, _) ↦ omega (arith, low, e)
]
