-- ===== src/Power/History.antt =====
-- RadioPowerControl.h over the reports of one node under automatic control.
use Prim.Native.Nat.{min}
use radio_sensors.Prelude.{
  ℕ, suc, ◌+◌, ◌≤◌, ◌≡◌, ◌∙◌, refl, true, false, ◌&&◌, List, [], ◌∷◌, ◌++◌, arith, ltb, ◌==◌,
  if◌then◌else◌, All,
}
use radio_sensors.Prelude.Int.{ℤ, pos, ◌+ℤ◌, quot_ℤ}
use radio_sensors.Power.{
  Report, ControlState, policy_auto, max_radio_power_level, reports_per_decision, fallback_margin,
  note_fallback, restart, count_report, take_in, observe,
}
use radio_sensors.Power.Decisions.{
  decision, observe-decision, observe-ge-floor, floor_kept, floor_taken,
}

-- The control after reports, the latest of which stands first.
unfoldable pub observed : ℕ → ControlState → List Report → ControlState
observed ceiling s [] = s
observed ceiling s (r ∷ h) = (observe (observed ceiling s h) policy_auto ceiling r).0

-- How many of the latest reports say a level, 255 at most, and the sum of their RSSIs: they go back
-- to the last report of another level, or to what the control had counted before.
abbrev pub count_at : ControlState → ℕ → List Report → ℕ
count_at s level [] = if s.known && s.reported_level == level then s.reports else 0
count_at s level (r ∷ h) = if r.level == level then min 255 (suc (count_at s level h)) else 0

abbrev pub sum_at : ControlState → ℕ → List Report → ℤ
sum_at s level [] = if s.known && s.reported_level == level then s.rssi_sum else pos 0
sum_at s level (r ∷ h) =
    if r.level == level
    then if ltb (count_at s level h) 255 then sum_at s level h +ℤ r.rssi else sum_at s level h
    else pos 0

-- A report is counted with those before it that say its level.
take_in_counts :
    (s : ControlState) (ceiling : ℕ) (r : Report)
    → s.reports ≤ 255
    → (take_in s ceiling r).reports ≡ count_at s r.level (r ∷ [])
unfolding take_in count_report restart note_fallback
take_in_counts s ceiling r h = ground arith

take_in_sums :
    (s : ControlState) (ceiling : ℕ) (r : Report)
    → s.reports ≤ 255
    → (take_in s ceiling r).rssi_sum ≡ sum_at s r.level (r ∷ [])
unfolding take_in count_report restart note_fallback
take_in_sums s ceiling r h = ground arith

module _ (ceiling : ℕ) (s : ControlState) (few : s.reports ≤ 255) where
  -- What a report leaves, by what was counted before it.
  observed_fields :
      (t : ControlState) (r : Report)
      → ((observe t policy_auto ceiling r).0.known ≡ true)
        × ((observe t policy_auto ceiling r).0.reported_level ≡ r.level)
        × ((observe t policy_auto ceiling r).0.fallback ≡ r.fallback)
        × ((observe t policy_auto ceiling r).0.reports ≡ (take_in t ceiling r).reports)
        × ((observe t policy_auto ceiling r).0.rssi_sum ≡ (take_in t ceiling r).rssi_sum)
        × ((observe t policy_auto ceiling r).0.floor ≡ (take_in t ceiling r).floor)
  unfolding observe take_in count_report restart note_fallback
  observed_fields t r = (ground arith, ground arith, ground arith, refl, refl, refl)

  observed_few : (h : List Report) → (observed ceiling s h).reports ≤ 255
  unfolding observed
  observed_few [] = few
  observed_few (r ∷ h) =
      let (_, _, _, reports, _, _) = observed_fields (observed ceiling s h) r in
      omega (arith, reports, reports_of (observed ceiling s h) r (observed_few h))
    where
      reports_of :
          (t : ControlState) (r : Report) → t.reports ≤ 255 → (take_in t ceiling r).reports ≤ 255
      reports_of t r e = ground (arith, take_in_counts t ceiling r e)

  -- The members count what the history says.
  observed_counts :
      (h : List Report) (level : ℕ) → count_at (observed ceiling s h) level [] ≡ count_at s level h
  unfolding observed
  observed_counts [] level = refl
  observed_counts (r ∷ h) level =
      let t = observed ceiling s h in
      let (known, reported, _, reports, _, _) = observed_fields t r in
      ground (
        arith,
        known,
        reported,
        reports,
        take_in_counts t ceiling r (observed_few h),
        observed_counts h r.level,
      )

  observed_sums :
      (h : List Report) (level : ℕ) → sum_at (observed ceiling s h) level [] ≡ sum_at s level h
  unfolding observed
  observed_sums [] level = refl
  observed_sums (r ∷ h) level =
      let t = observed ceiling s h in
      let (known, reported, _, _, sum, _) = observed_fields t r in
      ground (
        arith,
        known,
        reported,
        sum,
        take_in_sums t ceiling r (observed_few h),
        observed_counts h r.level,
        observed_sums h r.level,
      )

  observed_level :
      (h : List Report)
      → s.reported_level ≤ max_radio_power_level
      → All (λ r. r.level ≤ max_radio_power_level) h
      → (observed ceiling s h).reported_level ≤ max_radio_power_level
  unfolding observed
  observed_level [] m v = m
  observed_level (r ∷ h) m v = omega (arith, v.0, (observed_fields (observed ceiling s h) r).1)

  counts_taken :
      (h : List Report) (r : Report)
      → (take_in (observed ceiling s h) ceiling r).reports ≡ count_at s r.level (r ∷ h)
  counts_taken h r = ground (
    arith,
    take_in_counts (observed ceiling s h) ceiling r (observed_few h),
    observed_counts h r.level,
  )

  sums_taken :
      (h : List Report) (r : Report)
      → (take_in (observed ceiling s h) ceiling r).rssi_sum ≡ sum_at s r.level (r ∷ h)
  sums_taken h r = ground (
    arith,
    take_in_sums (observed ceiling s h) ceiling r (observed_few h),
    observed_counts h r.level,
    observed_sums h r.level,
  )

  -- Under automatic control, from a state that counted 255 reports at most, with levels of 31 at
  -- most: while fewer than three of the latest reports in a row say the latest level, those that
  -- the state had counted at it included, the answer is the level wanted so far, which is the
  -- reported one for a first report or one of a fallback; from then on it is the reported level
  -- less three where the average of those reports, 255 of them at most, is above the window, that
  -- level and six more where it is below, and the level wanted so far inside the window, each
  -- raised to the floor, which a first report of a fallback sets three levels above the level that
  -- failed, or at the ceiling; the answer never passes the ceiling.
  pub observe-auto :
      (h : List Report) (r : Report)
      → s.reported_level ≤ max_radio_power_level
      → All (λ x. x.level ≤ max_radio_power_level) (r ∷ h)
      → (observe (observed ceiling s h) policy_auto ceiling r).1
        ≡ decision
            (observed ceiling s h)
            ceiling
            r
            (count_at s r.level (r ∷ h))
            (quot_ℤ (sum_at s r.level (r ∷ h)) (count_at s r.level (r ∷ h)))
  observe-auto h r m v =
      observe-decision (observed ceiling s h) ceiling r (observed_level h m v.1) v.0
      ∙ rw (counts_taken h r, sums_taken h r)

-- The report before others, which stands last, or the latest of them.
abbrev pub latest : Report → List Report → Report
latest r [] = r
latest r (x ∷ h) = x

-- None of the reports after `r` is the first to say that the node fell back.
abbrev pub NoNewFallback : Report → List Report → Type 0
NoNewFallback r [] = Unit {0}
NoNewFallback r (x ∷ h) = (x.fallback ≡ true → (latest r h).fallback ≡ true) × NoNewFallback r h

module _ (ceiling : ℕ) (s : ControlState) (few : s.reports ≤ 255) (r : Report)
    (in_range : s.reported_level ≤ max_radio_power_level) (fell : r.fallback ≡ true)
    (known : s.known ≡ true) (stood : s.fallback ≡ false) where
  -- The floor that the fallback set stays, and the last report's flag.
  floor_held :
      (h : List Report)
      → NoNewFallback r h
      → ((observed ceiling s (h ++ (r ∷ []))).floor
          ≡ min ceiling (s.reported_level + fallback_margin))
        × ((observed ceiling s (h ++ (r ∷ []))).fallback ≡ (latest r h).fallback)
  unfolding observed
  floor_held [] v =
      let (_, _, fallback, _, _, floor) = observed_fields ceiling s few s r in
      (ground (arith, floor, floor_taken s ceiling r in_range), fallback)
  floor_held (x ∷ h) v =
      let t = observed ceiling s (h ++ (r ∷ [])) in
      let (floor, flag) = floor_held h v.1 in
      let (_, _, fallback, _, _, taken) = observed_fields ceiling s few t x in
      (taken ∙ (floor_kept t ceiling x (λ f. flag ∙ v.0 f) ∙ floor), fallback)

  -- From a state of a known node not in fallback that counted 255 reports at most, with a reported
  -- level of 31 at most: from the report on that first says that the node fell back, with any reports
  -- after it of which none does so anew, an answer of the automatic control that rests on three reports
  -- in a row at its level, those before the fallback included, is three levels above the level that
  -- failed at least, or the ceiling.
  pub fallback_raises :
      (h : List Report)
      → NoNewFallback r h
      → reports_per_decision ≤ count_at s (latest r h).level (h ++ (r ∷ []))
      → min ceiling (s.reported_level + fallback_margin)
        ≤ (observed ceiling s (h ++ (r ∷ []))).desired
  unfolding observed
  fallback_raises [] v n =
      let count = take_in_counts s ceiling r few in
      ground (
        arith,
        floor_taken s ceiling r in_range,
        observe-ge-floor s ceiling r (omega (arith, n, count)),
      )
  fallback_raises (x ∷ h) v n =
      let t = observed ceiling s (h ++ (r ∷ [])) in
      let floor : t.floor ≡ min ceiling (s.reported_level + fallback_margin) =
        (floor_held h v.1).0 in
      let flag = (floor_held h v.1).1 in
      let kept = floor_kept t ceiling x (λ f. flag ∙ v.0 f) in
      let count = counts_taken ceiling s few (h ++ (r ∷ [])) x in
      ground (arith, floor, kept, observe-ge-floor t ceiling x (omega (arith, n, count)))
