-- ===== src/BsonApi.antt =====
-- src/serialization/bson_api: a layer over libbson. Errors is bson_errors.h with bson_err_msg; Docs makes
-- documents from arrays of elements and back; Read reads the documents of a buffer into an array; Values writes
-- them, and stores them in values.
mod Errors
mod Docs
mod Read
mod Values
mod Scalars
