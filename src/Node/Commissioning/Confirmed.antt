-- ===== src/Node/Commissioning/Confirmed.antt =====
-- `confirmJoin` makes a node active only by a JoinComplete of its own, which it received.
use mathlib.Core.Path.{subst}
use radio_sensors.Prelude.{
  ℕ, zero, suc, ◌≡◌, ◌⊎◌, inl, inr, refl, sym, ap, ◌∙◌, Bool, true, false, ◌&&◌, List, [], Option,
  none, some, arith, ==_iff, Bool-cases, Option-cases, Bytes,
}
use radio_sensors.Prelude.Result.{Result, ok, err}
use radio_sensors.Wire.JoinRequest.{DeviceUid}
use radio_sensors.Wire.Commissioning.{
  JoinConfirm, JoinComplete, encode_join_confirm, decode_join_complete, join_confirm_size,
  join_complete_size,
}
use radio_sensors.Registry.Table.{same_uid_iff}
use radio_sensors.Eeprom.Config.{NetworkConfig}
use radio_sensors.Node.Commissioning.{
  NodeRadio, ConfigStore, Build, Node, is_active, accepted, completion, activated, attempted,
  try_confirm, confirm_join, complete_window_ms, asleep, confirm_attempts,
}

accepted_found :
    {E A : Type 0} (m : Result E A) (p : A → Bool) (a : A)
    → accepted m p ≡ some a
    → (m ≡ ok a) × (p a ≡ true)
accepted_found (err e) p a h = absurd (ground (arith, h))
accepted_found (ok x) p a h = elim (Bool-cases (p x)) [
  | inl e ↦ let same : x ≡ a = ground (arith, h, e) in (ap (λ y. ok y) same, ap p (sym same) ∙ e)
  | inr e ↦ absurd (ground (arith, h, e))
]

pub Result-cases :
    {E A : Type 0} (m : Result E A) → ((e : E) × (m ≡ err e)) ⊎ ((a : A) × (m ≡ ok a))
Result-cases (err e) = inl (e, refl)
Result-cases (ok a) = inr (a, refl)

both_hold : (a b : Bool) → (a && b) ≡ true → (a ≡ true) × (b ≡ true)
both_hold true b h = (refl, h)
both_hold false b h = absurd (ground (arith, h))

module _ (R : NodeRadio) (C : ConfigStore) (build : Build) where
  -- The states of the radio that calls of the node's driver lead to.
  pub data Called (start : R.State) : R.State → Type 0 where
    here : Called start start
    configured : {s : R.State} → Called start s → Called start (R.ensure_configured s).0
    commissioning :
        {s : R.State} (key : Bytes 16)
        → Called start s
        → Called start (R.use_commissioning_profile s key)
    operational :
        {s : R.State} (config : NetworkConfig)
        → Called start s
        → Called start (R.use_operational_profile s config)
    sent :
        {s : R.State} (to : ℕ) (frame : List ℕ) → Called start s → Called start (R.send s to frame)
    heard :
        {s : R.State} (window from size : ℕ)
        → Called start s
        → Called start (R.receive s window from size).0

  -- The call that waits for a JoinComplete from the configuration's gateway.
  abbrev pub await_complete : R.State → NetworkConfig → R.State × Option (List ℕ)
  await_complete s config = R.receive s complete_window_ms config.gateway_id join_complete_size

  -- From a state of the radio on, a node with this UID and configuration made calls of it the last
  -- three of which sent its own JoinConfirm to the gateway, received a JoinComplete with the UID and
  -- the nonce from it, and put the radio to sleep.
  abbrev pub WasCompleted : R.State → DeviceUid → NetworkConfig → R.State → Type 0
  WasCompleted start uid config end =
      (s : R.State) × (sent_frame bytes : List ℕ) × (c : JoinComplete) × Called start s
      × (encode_join_confirm (record { device_uid = uid; request_nonce = config.request_nonce })
            (some []) join_confirm_size
          ≡ ok sent_frame)
      × ((await_complete (R.send s config.gateway_id sent_frame) config).1 ≡ some bytes)
      × (decode_join_complete (some bytes) join_complete_size ≡ ok c)
      × (c.device_uid ≡ uid)
      × (c.request_nonce ≡ config.request_nonce)
      × (end ≡ R.sleep (await_complete (R.send s config.gateway_id sent_frame) config).0)

  abbrev own_confirm : Node R C → JoinConfirm
  own_confirm n = record { device_uid = n.device_uid; request_nonce = n.config.request_nonce }

  completion_found :
      (n : Node R C) (got : Option (List ℕ)) (c : JoinComplete)
      → completion R C build n got ≡ some c
      → (bytes : List ℕ) × (got ≡ some bytes)
        × (decode_join_complete (some bytes) join_complete_size ≡ ok c)
        × (c.device_uid ≡ n.device_uid)
        × (c.request_nonce ≡ n.config.request_nonce)
  completion_found n none c h = absurd (ground (arith, h))
  completion_found n (some bytes) c h =
      let (decoded, passed) =
        accepted_found (decode_join_complete (some bytes) join_complete_size) _ c h in
      let (uid, nonce) = both_hold _ _ passed in
      (
        bytes,
        refl,
        decoded,
        (same_uid_iff c.device_uid n.device_uid).0 uid,
        (==_iff c.request_nonce n.config.request_nonce).0 nonce,
      )

  completion-WasCompleted :
      (start : R.State) (n : Node R C) (frame : List ℕ) (c : JoinComplete)
      → Called start n.radio
      → encode_join_confirm (own_confirm n) (some []) join_confirm_size ≡ ok frame
      → completion R C build (attempted R C build n frame).0 (attempted R C build n frame).1
        ≡ some c
      → WasCompleted start n.device_uid n.config (R.sleep (attempted R C build n frame).0.radio)
  completion-WasCompleted start n frame c reached encoded h =
      let (bytes, got, decoded, uid, nonce) =
        completion_found (attempted R C build n frame).0 (attempted R C build n frame).1 c h in
      (n.radio, frame, bytes, c, reached, encoded, got, decoded, uid, nonce, refl)

  try_confirm_again :
      (left : ℕ) (n : Node R C) (frame : List ℕ)
      → completion R C build (attempted R C build n frame).0 (attempted R C build n frame).1 ≡ none
      → try_confirm R C build (suc left) n frame
        ≡ try_confirm R C build left (attempted R C build n frame).0 frame
  unfolding try_confirm
  try_confirm_again left n frame e = ground (arith, e)

  try_confirm_done :
      (left : ℕ) (n : Node R C) (frame : List ℕ) (c : JoinComplete)
      → completion R C build (attempted R C build n frame).0 (attempted R C build n frame).1
        ≡ some c
      → try_confirm R C build (suc left) n frame
        ≡ activated R C build (attempted R C build n frame).0
  unfolding try_confirm
  try_confirm_done left n frame c e = ground (arith, e)

  -- What the loop leaves: a node that was not active is not, or it got its completion.
  abbrev pub Outcome : R.State → DeviceUid → Node R C → Type 0
  Outcome start uid after =
      is_active after.config ≡ true → WasCompleted start uid after.config after.radio

  try_confirm_completed :
      (left : ℕ) (start : R.State) (n : Node R C) (frame : List ℕ)
      → Called start n.radio
      → encode_join_confirm (own_confirm n) (some []) join_confirm_size ≡ ok frame
      → is_active n.config ≡ false
      → Outcome start n.device_uid (try_confirm R C build left n frame).0
  try_confirm_completed zero start n frame reached encoded h =
      unfold try_confirm in λ a. absurd (ground (arith, h, a))
  try_confirm_completed (suc left) start n frame reached encoded h =
      elim (Option-cases
        (completion R C build (attempted R C build n frame).0 (attempted R C build n frame).1)) [
          | inl e ↦
              subst (λ x. Outcome start n.device_uid x.0) (sym (try_confirm_again left n frame e))
                (try_confirm_completed left start (attempted R C build n frame).0 frame
                  (heard _ _ _ (sent _ frame reached)) encoded h)
          | inr (c, e) ↦
              subst (λ x. Outcome start n.device_uid x.0) (sym (try_confirm_done left n frame c e))
                (λ a. completion-WasCompleted start n frame c reached encoded e)
        ]

  abbrev pub made_operational : Node R C → Node R C
  made_operational n = record n { radio = R.use_operational_profile n.radio n.config }

  pub confirm_join_completed :
      (start : R.State) (n : Node R C)
      → Called start n.radio
      → is_active n.config ≡ false
      → Outcome start n.device_uid (confirm_join R C build n).0
  confirm_join_completed start n reached h =
      elim (Result-cases (encode_join_confirm (own_confirm n) (some []) join_confirm_size)) [
        | inl (x, e) ↦
            let step : confirm_join R C build n ≡ (asleep R C build (made_operational n), false) =
              unfold confirm_join in ground (arith, e) in
            subst (λ y. Outcome start n.device_uid y.0) (sym step)
              (λ a. absurd (ground (arith, h, a)))
        | inr (frame, e) ↦
            let step : confirm_join R C build n
                ≡ try_confirm R C build confirm_attempts (made_operational n) frame =
              unfold confirm_join in ground (arith, e) in
            subst (λ y. Outcome start n.device_uid y.0) (sym step)
              (try_confirm_completed confirm_attempts start (made_operational n) frame
                (operational n.config reached) e h)
      ]
