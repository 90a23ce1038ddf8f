-- ===== src/Tests.antt =====
-- Small runs of the model, and the theorems at concrete inputs.
mod Samples
mod SchedulerExamples
mod LoopExamples
mod BenchExamples
mod StreamExamples
mod CallExamples
mod WireExamples
mod WeightsExamples
mod LoadingExamples
mod QwenExamples
mod EngineExamples
mod GatewayExamples
mod GreedyExamples
