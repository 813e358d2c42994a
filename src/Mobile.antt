-- ===== src/Mobile.antt =====
-- mobile/src: the mobile client, a module for each of its parts.
pub mod Session
pub mod Client
pub mod Upload
pub mod Device
pub mod Feed
pub mod Api
pub mod Card
pub mod Gallery
pub mod Landing
pub mod Forms
pub mod Detail
pub mod Profile
pub mod Admin
pub mod Navigation
