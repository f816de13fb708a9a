-- ===== src/Node/Commissioning/Drivers.antt =====
-- What node/lib/NodeCore/src/CommissioningService.cpp uses: the radio driver, which is a parameter,
-- the store of the configuration, as an interface that NetworkConfigStore fills, and the constants of
-- the build.
use radio_sensors.Prelude.{ℕ, Bool, true, false, List, Option, none, some, Bytes, if◌then◌else◌}
use radio_sensors.Wire.JoinRequest.{FirmwareVersion}
use radio_sensors.Eeprom.{Storage, StoreState, next_generation, perform}
use radio_sensors.Eeprom.Config.{NetworkConfig, load_config, save_config, factory_reset}

-- The calls of NodeRadio; `receive` gives the bytes of a frame of the size that is asked for from
-- the sender, `none` if none came within the window.
pub record NodeRadio : Type 1 where
  pub State : Type 0
  pub use_commissioning_profile : State → Bytes 16 → State
  pub use_operational_profile : State → NetworkConfig → State
  pub ensure_configured : State → State × Bool
  pub send : State → ℕ → List ℕ → State
  pub receive : State → ℕ → ℕ → ℕ → State × Option (List ℕ)
  pub sleep : State → State

-- NetworkConfigStore, by its save and its reset. `save` takes its argument by reference: it gives
-- the generation that it wrote to it, whether it succeeded or not.
pub record ConfigStore : Type 1 where
  pub State : Type 0
  pub save : State → NetworkConfig → State × ℕ × Bool
  pub factory_reset : State → State

-- The members of NetworkConfigStore on the EEPROM, and the EEPROM, which fill that interface.
pub record EepromConfigs (E : Storage) : Type 0 where
  pub cells : E.State
  pub members : StoreState

abbrev pub eeprom_configs : Storage → ConfigStore
eeprom_configs E = record {
  State = EepromConfigs E;
  save = λ s config.
      (let now = if s.members.initialized then s.members else (load_config E s.cells).0 in
        elim (save_config E s.members s.cells config) [
          | none ↦ (record s { members = now }, next_generation now, false)
          | some saved ↦ (
            record { cells = perform E saved.writes s.cells; members = saved.state },
            saved.value.generation,
            true,
          )
        ]);
  factory_reset =
      λ s. (let reset = factory_reset E s.cells in record { cells = reset.0; members = reset.1 });
}

pub record Build : Type 0 where
  pub gateway_id : ℕ
  pub max_power_level : ℕ
  pub firmware : FirmwareVersion
