-- ===== src/Registry/Invariant/Restore.antt =====
-- `restore` accepts exactly the lists of records that satisfy the invariant.
use radio_sensors.Prelude.{
  ℕ, zero, suc, ◌-◌, ◌≤◌, ◌≡◌, ◌↔◌, ap, inl, inr, refl, true, false, List, [], ◌∷◌, ◌++◌, none,
  some, arith, length, take, All, Bool-cases,
}
use radio_sensors.Registry.{NodeRecord, NodeRegistry, max_nodes, same_uid, blanks}
use radio_sensors.Registry.Table.{AllBefore, AllBefore-append_one, Pairwise, same_uid_iff}
use radio_sensors.Registry.Updates.{valid_record, clash, clashes, valid_records, restore}
use radio_sensors.Registry.Invariant.{IsRecord, IsRegistry, Apart, IsRegistry-blanks}

valid_record→IsRecord : (r : NodeRecord) → valid_record r ≡ true → IsRecord r
unfolding valid_record
valid_record→IsRecord r h = ground arith

IsRecord→valid_record : (r : NodeRecord) → IsRecord r → valid_record r ≡ true
unfolding valid_record
IsRecord→valid_record r v = ground arith

no_clash→Apart : (p r : NodeRecord) → clash p r ≡ false → Apart p r
no_clash→Apart p r h =
    (ground arith, λ e. ground (arith, (same_uid_iff p.device_uid r.device_uid).1 e))

Apart→no_clash : (p r : NodeRecord) → Apart p r → clash p r ≡ false
Apart→no_clash p r a = elim (Bool-cases (same_uid p.device_uid r.device_uid)) [
  | inl e ↦ absurd (a.1 ((same_uid_iff p.device_uid r.device_uid).0 e))
  | inr e ↦ rw e (ground (arith, a.0))
]

-- No record that stands before clashes with `r`.
abbrev Free : List NodeRecord → NodeRecord → Type 0
Free previous r = All (λ p. Apart p r) previous

no_clashes→Free : (ps : List NodeRecord) (r : NodeRecord) → clashes ps r ≡ false → Free ps r
unfolding clashes
no_clashes→Free [] r h = tt
no_clashes→Free (p ∷ ps) r h = elim (Bool-cases (clash p r)) [
  | inl e ↦ absurd (ground (arith, e))
  | inr e ↦ (no_clash→Apart p r e, no_clashes→Free ps r (rw e at h))
]

Free→no_clashes : (ps : List NodeRecord) (r : NodeRecord) → Free ps r → clashes ps r ≡ false
unfolding clashes
Free→no_clashes [] r v = refl
Free→no_clashes (p ∷ ps) r v = rw (Apart→no_clash p r v.0) (Free→no_clashes ps r v.1)

-- Each record of the second list is apart from each of the first.
abbrev AllFree : List NodeRecord → List NodeRecord → Type 0
AllFree = AllBefore Apart

abbrev AreRecords : List NodeRecord → List NodeRecord → Type 0
AreRecords previous rs = All IsRecord rs × Pairwise Apart rs × AllFree previous rs

valid_records→AreRecords : (ps rs : List NodeRecord) → valid_records ps rs ≡ true → AreRecords ps rs
unfolding valid_records
valid_records→AreRecords ps [] h = (tt, tt, tt)
valid_records→AreRecords ps (r ∷ rs) h =
    let (here, apart, later) = passed in
    let ih = valid_records→AreRecords (ps ++ (r ∷ [])) rs later in
    let split = (AllBefore-append_one Apart ps rs r).0 ih.2 in
    ((valid_record→IsRecord r here, ih.0), (split.1, ih.1), (no_clashes→Free ps r apart, split.0))
  where
    passed :
        (valid_record r ≡ true)
        × (clashes ps r ≡ false)
        × (valid_records (ps ++ (r ∷ [])) rs ≡ true)
    passed = ground arith

AreRecords→valid_records : (ps rs : List NodeRecord) → AreRecords ps rs → valid_records ps rs ≡ true
unfolding valid_records
AreRecords→valid_records ps [] v = refl
AreRecords→valid_records ps (r ∷ rs) v =
    rw (IsRecord→valid_record r v.0.0, Free→no_clashes ps r v.2.0)
      (AreRecords→valid_records (ps ++ (r ∷ [])) rs
        (v.0.1, v.1.1, (AllBefore-append_one Apart ps rs r).1 (v.2.1, v.1.0)))

-- Any list is free of what does not stand before it.
AllFree-nil : (rs : List NodeRecord) → AllFree [] rs
AllFree-nil [] = tt
AllFree-nil (r ∷ rs) = (tt, AllFree-nil rs)

-- `restore` succeeds exactly on 64 valid records at most, no two of which share an ID or a UID.
pub restore_iff_records :
    (r : NodeRegistry) (records : List NodeRecord) (count : ℕ)
    → ((restore r (some records) count).1 ≡ true) ↔ (
        (count ≤ max_nodes)
        × All IsRecord (take count records)
        × Pairwise Apart (take count records))
unfolding restore
restore_iff_records r records count = (accepted, λ v. refused v)
  where
    accepted :
        (restore r (some records) count).1 ≡ true
        → (count ≤ max_nodes)
          × All IsRecord (take count records)
          × Pairwise Apart (take count records)
    accepted h = elim (Bool-cases (valid_records [] (take count records))) [
      | inl e ↦
          let v = valid_records→AreRecords [] (take count records) e in (ground arith, v.0, v.1)
      | inr e ↦ absurd (ground (arith, e))
    ]

    refused :
        (count ≤ max_nodes)
          × All IsRecord (take count records)
          × Pairwise Apart (take count records)
        → (restore r (some records) count).1 ≡ true
    refused v =
        rw (AreRecords→valid_records [] (take count records) (v.1, v.2, AllFree-nil _))
          (ground (arith, v.0))

pub restore-accepted :
    (r : NodeRegistry) (records : List NodeRecord) (count : ℕ)
    → (restore r (some records) count).1 ≡ true
    → restore r (some records) count
      ≡ (record { live = take count records; spare = blanks (max_nodes - count) }, true)
unfolding restore
restore-accepted r records count e = ground (arith, e)

length-take : (n : ℕ) (xs : List NodeRecord) → n ≤ length xs → length (take n xs) ≡ n
length-take zero xs h = refl
length-take (suc n) [] h = absurd (omega arith)
length-take (suc n) (x ∷ xs) h = omega (arith, length-take n xs)

-- Restoring any list of records, with as many of them as `count` says, keeps the invariant.
pub restore-IsRegistry :
    (r : NodeRegistry) (records : List NodeRecord) (count : ℕ)
    → count ≤ length records
    → IsRegistry r
    → IsRegistry (restore r (some records) count).0
restore-IsRegistry r records count h v = elim (Bool-cases (restore r (some records) count).1) [
  | inl e ↦
      let f = (restore_iff_records r records count).0 e in
      let n = length-take count records h in
      let w = IsRegistry-blanks (take count records) (omega (arith, n, f.0)) f.1 f.2 in
      rw (ap (λ x. x.0) (restore-accepted r records count e)) (rw n at w)
  | inr e ↦ rw (left e) v
]
  where
    left : (restore r (some records) count).1 ≡ false → (restore r (some records) count).0 ≡ r
    left e = unfold restore in ground (arith, e)

-- A null pointer restores the empty registry, or nothing.
pub restore_null-IsRegistry :
    (r : NodeRegistry) (count : ℕ) → IsRegistry r → IsRegistry (restore r none count).0
restore_null-IsRegistry r count v = elim (Bool-cases (restore r none count).1) [
  | inl e ↦ rw (emptied e) (IsRegistry-blanks [] (omega arith) tt tt)
  | inr e ↦ rw (left e) v
]
  where
    emptied :
        (restore r none count).1 ≡ true
        → (restore r none count).0 ≡ record { live = []; spare = blanks max_nodes }
    emptied e = unfold restore in ground (arith, e)

    left : (restore r none count).1 ≡ false → (restore r none count).0 ≡ r
    left e = unfold restore in ground (arith, e)
