-- ===== src/Tests.antt =====
-- Each theorem with parameters applied at a concrete input.
mod AuthTests
mod SessionTests
mod AccessTests
mod StreamTests
mod HubTests
mod IngestTests
mod DownstreamTests
mod ArchiveTests
