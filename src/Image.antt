-- ===== src/Image.antt =====
-- frontend/src/image: the headers of picture files, and the EXIF orientation.
pub mod Tiff
pub mod JpegFile
pub mod PngFile
pub mod WebpFile
pub mod Header
pub mod Exif
pub mod Source
mod Tests
