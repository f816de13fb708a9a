-- ===== src/Node/Commissioning/Joined.antt =====
-- A node becomes active only by a JoinComplete of its own, which it received.
use mathlib.Core.Path.{subst}
use radio_sensors.Prelude.{
  ℕ, ◌≡◌, inl, inr, refl, sym, true, false, List, [], Option, some, arith, Bool-cases, Option-cases,
}
use radio_sensors.Prelude.Result.{ok}
use radio_sensors.Wire.JoinRequest.{encode_join_request, join_request_size}
use radio_sensors.Wire.Commissioning.{join_accept_size}
use radio_sensors.Registry.Table.{}
use radio_sensors.Eeprom.Config.{}
use radio_sensors.Node.Commissioning.{
  NodeRadio, ConfigStore, Build, Node, is_active, is_provisional, confirm_join, request_join,
  advance, asleep, joined, join_request, answer, accept_window_ms,
}
use radio_sensors.Node.Commissioning.Confirmed.{
  Result-cases, Called, here, configured, commissioning, operational, sent, heard, WasCompleted,
  Outcome, made_operational, confirm_join_completed,
}

module _ (R : NodeRadio) (C : ConfigStore) (build : Build) where
  -- The node that waits for an answer, and what it receives.
  module _ (start : R.State) (n : Node R C) (micros : ℕ) (frame : List ℕ)
      (reached : Called R C build start n.radio) where
    abbrev reply : R.State × Option (List ℕ)
    reply =
        R.receive
          (R.send (R.use_commissioning_profile n.radio n.factory_key) build.gateway_id frame)
          accept_window_ms build.gateway_id join_accept_size

    abbrev waited : Node R C
    waited = record n { radio = reply.0 }

    request_answered :
        encode_join_request (join_request R C build n micros) (some []) join_request_size ≡ ok frame
        → is_active n.config ≡ false
        → Outcome R C build start n.device_uid (request_join R C build n micros).0
    request_answered e h =
        elim (Option-cases (answer R C build waited (join_request R C build n micros) reply.1)) [
          | inl none_given ↦
              let step : request_join R C build n micros ≡ (asleep R C build waited, false) =
                unfold request_join in ground (arith, e, none_given) in
              subst (λ y. Outcome R C build start n.device_uid y.0) (sym step)
                (λ a. absurd (ground (arith, h, a)))
          | inr (accept, given) ↦ elim (Bool-cases (joined R C build waited accept).1) [
            | inl saved ↦
                let step : request_join R C build n micros
                    ≡ confirm_join R C build
                        (made_operational R C build (joined R C build waited accept).0) =
                  unfold request_join in ground (arith, e, given, saved) in
                subst (λ y. Outcome R C build start n.device_uid y.0) (sym step)
                  (confirm_join_completed R C build start
                    (made_operational R C build (joined R C build waited accept).0)
                    (operational _ (heard _ _ _ (sent _ frame (commissioning _ reached)))) refl)
            | inr lost ↦
                let step : request_join R C build n micros
                    ≡ (asleep R C build (joined R C build waited accept).0, false) =
                  unfold request_join in ground (arith, e, given, lost) in
                subst (λ y. Outcome R C build start n.device_uid y.0) (sym step)
                  (λ a. absurd (ground (arith, a)))
          ]
        ]

  request_join_completed :
      (start : R.State) (n : Node R C) (micros : ℕ)
      → Called R C build start n.radio
      → is_active n.config ≡ false
      → Outcome R C build start n.device_uid (request_join R C build n micros).0
  request_join_completed start n micros reached h =
      elim (Result-cases
        (encode_join_request (join_request R C build n micros) (some []) join_request_size)) [
          | inl (x, e) ↦
              let step : request_join R C build n micros ≡ (
                asleep R C build
                    (record n { radio = R.use_commissioning_profile n.radio n.factory_key }),
                false,
              ) =
                unfold request_join in ground (arith, e) in
              subst (λ y. Outcome R C build start n.device_uid y.0) (sym step)
                (λ a. absurd (ground (arith, h, a)))
          | inr (frame, e) ↦ request_answered start n micros frame reached e h
        ]

  -- A node that was not active and is active after it went on with its commissioning ended its
  -- calls of the radio so: it sent a JoinConfirm with its own UID and the nonce of its configuration
  -- to its gateway, received from there, within the window, a JoinComplete with that UID and nonce,
  -- and put the radio to sleep.
  pub advance_completed :
      (n : Node R C) (micros : ℕ)
      → is_active n.config ≡ false
      → is_active (advance R C build n micros).0.config ≡ true
      → WasCompleted R C build n.radio n.device_uid
          (advance R C build n micros).0.config
          (advance R C build n micros).0.radio
  advance_completed n micros h =
      let ready : Node R C = record n { radio = (R.ensure_configured n.radio).0 } in
      elim (Bool-cases (R.ensure_configured n.radio).1) [
        | inr c ↦
            let step : advance R C build n micros ≡ (ready, false) =
              unfold advance in ground (arith, h, c) in
            subst (λ y. Outcome R C build n.radio n.device_uid y.0) (sym step)
              (λ a. absurd (ground (arith, h, a)))
        | inl c ↦ elim (Bool-cases (is_provisional n.config)) [
          | inl p ↦
              let step : advance R C build n micros ≡ confirm_join R C build ready =
                unfold advance in ground (arith, h, c, p) in
              subst (λ y. Outcome R C build n.radio n.device_uid y.0) (sym step)
                (confirm_join_completed R C build n.radio ready (configured here) h)
          | inr p ↦
              let step : advance R C build n micros ≡ request_join R C build ready micros =
                unfold advance in ground (arith, h, c, p) in
              subst (λ y. Outcome R C build n.radio n.device_uid y.0) (sym step)
                (request_join_completed n.radio ready micros (configured here) h)
        ]
      ]
