-- ===== src/S3.antt =====
-- The S3 front end, blobgw-s3/s3: strings, the Range header and the listing.
pub mod Text
pub mod Range
pub mod Listing
mod Examples
