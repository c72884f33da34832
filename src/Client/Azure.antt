-- ===== src/Client/Azure.antt =====
-- The client of Azure Repos (vcsclient/azurerepos.go). What it takes from the package azure-devops
-- is in `Api`; a run has the log of its requests.
pub mod Api
pub mod Pulls
pub mod Commits
pub mod Files
