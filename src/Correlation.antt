-- ===== src/Correlation.antt =====
-- src/core/domain/correlation.py, src/core/infrastructure/correlation/rules.py and
-- src/core/application/correlation_handler.py: deterministic correlation of security events.
pub mod Key
pub mod Rules
pub mod Store
pub mod Handler
pub mod Samples
mod Examples
