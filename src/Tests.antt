-- ===== src/Tests.antt =====
-- Concrete inputs: the data of a small installation, and the theorems applied to it.
mod Data
mod AuthzTests
mod SessionTests
mod MavisTests
mod ChildTests
mod SyncTests
mod SyslogTests
mod ForwarderTests
mod ApiTests
mod AccessTests
mod AccountingTests
