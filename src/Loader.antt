-- ===== src/Loader.antt =====
-- The image loader: src/LinchpinST/src/lpst_image.c. The files are read through the C library, and
-- memory is had from it: both are parameters. A path is not modelled, only the file that it names.
pub mod Result
pub mod Header
pub mod Modules
pub mod Tables
pub mod Load
mod Tests
