-- ===== src/Traces.antt =====
-- Traces of requests, the work that an estimator gives a request, and the arrival curve of a trace.
pub mod Estimators
pub mod Reader
pub mod Arrivals
