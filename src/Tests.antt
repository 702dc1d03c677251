-- ===== src/Tests.antt =====
-- Runs of the code at concrete inputs, and the theorems applied there.
mod Fixtures
mod AuthRuns
mod CoreRuns
mod LicenseRuns
mod LimitRuns
mod NameRuns
mod PolicyRuns
mod QueryRuns
