-- ===== src/Webhook.antt =====
-- Package webhookparser.
pub mod Info
pub mod Http
pub mod Parser
pub mod Github
pub mod Gitlab
pub mod BitbucketServer
pub mod BitbucketCloud
pub mod Entry
pub mod Shape
pub mod Refs
