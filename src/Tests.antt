-- ===== src/Tests.antt =====
-- Test data, tests by evaluation, and the theorems at concrete inputs.
mod L3Tests
mod MoldTests
mod ControlTests
mod ItchTests
mod BboTests
mod L2Tests
mod AxisTests
mod TopTests
mod BookTests
mod StreamPktTests
mod PipelineTests
