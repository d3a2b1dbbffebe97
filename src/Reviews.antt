-- ===== src/Reviews.antt =====
-- packages/reviews: the reviews, their moderation and the rating projection.
pub mod Store
pub mod Violations
pub mod Submit
pub mod Change
pub mod Rating
pub mod Ownership
pub mod Upkeep
pub mod Moderated
pub mod ReviewList
pub mod Rebuild
pub mod Slug
pub mod Products
pub mod ProductList
