-- ===== src/Tests.antt =====
-- Tests, and the theorems at concrete inputs.
mod BstTests
mod ConnTests
mod LifeTests
mod RequestTests
mod SchedulerTests
mod StringTests
mod PartTests
mod PluginTests
mod ThreadTests
