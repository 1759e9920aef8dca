-- ===== src/Tests.antt =====
-- The theorems at concrete inputs, and runs of the model on small ones.
mod Trace
mod Schedule
mod Drivers
mod Hosts
mod Printed
mod Handlers
mod Start
mod Panel
mod Port
mod Boards
mod Journals
mod Races
mod Scenes
mod Whole
mod Inside
mod Patience
