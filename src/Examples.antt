-- ===== src/Examples.antt =====
-- Tests of the definitions at concrete inputs, and the theorems at inputs that meet their
-- hypotheses.
mod Button
mod Power
mod Schedule
mod Eeprom
mod Wire
mod Registry
mod Gateway
mod Journal
mod Stores
mod Node
