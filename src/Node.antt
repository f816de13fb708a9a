-- ===== src/Node.antt =====
-- node/lib/NodeCore/include: what a node decides on its own. Contact is ConfirmedInput.h, PowerState
-- is RadioPowerState.h, Supply is SupplyVoltage.h.
-- Commissioning is node/lib/NodeCore/src/CommissioningService.cpp.
pub mod Contact
pub mod PowerState
pub mod Supply
pub mod Commissioning
