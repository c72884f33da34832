-- ===== src/Tests.antt =====
-- Concrete runs, and the theorems at concrete inputs.
mod Webhook
mod Auth
mod Pushes
mod Extract
mod Retry
mod Sets
mod Client
mod Gitlab
mod Github
mod Bitbucket
mod Cloud
mod Azure
