-- ===== src/Features/Publishing.antt =====
-- src/app/features/publishing: scheduling, dispatching and settling posts.
pub mod StartPublicationPublish
pub mod CompletePublicationPublish
pub mod FailPublicationPublish
pub mod DeferPublicationPublish
pub mod CancelPublication
pub mod ReleaseScheduledPublications
pub mod CreatePublication
pub mod PublicationMetrics
