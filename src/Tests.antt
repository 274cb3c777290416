-- ===== src/Tests.antt =====
-- Runs of the model, and the theorems at concrete inputs.
mod Starts
mod BookRuns
mod BookExamples
mod RingExamples
mod PoolExamples
mod BitmapExamples
mod WireExamples
mod GatewayExamples
mod TrackingExamples
mod FeedExamples
mod EmitExamples
mod OrderlyExamples
mod Digests
mod LoggerExamples
mod WebExamples
