-- ===== src/Features/Products.antt =====
-- src/app/features/products: a product's readiness, its input photos and its generation requests.
pub mod RecomputeProductReadiness
pub mod CaptureProductInputImage
pub mod ValidateInputImage
pub mod CreateProductVariant
pub mod CreateGenerationRequest
pub mod FanOutGenerationItems
