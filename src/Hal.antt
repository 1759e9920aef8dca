-- ===== src/Hal.antt =====
-- The hardware abstraction layer, firmware/emsa5/hal: one module for each driver, over a bus that
-- stands for the peripherals.
pub mod Bus
pub mod Timer
pub mod Irq
pub mod Gpio
pub mod Led
pub mod Core
