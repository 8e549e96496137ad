-- ===== src/Batch.antt =====
-- internal/pkg/batch: the two adjusters of the batch size.
pub mod Fixed
pub mod SlideWindow
mod Tests
