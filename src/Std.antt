-- ===== src/Std.antt =====
-- What the program uses of Python's standard library: struct, the UTF-8 codec, zlib.crc32, datetime
-- differences, the printing of numbers, re.match and json.dumps.
pub mod Struct
pub mod Utf8
pub mod Crc32
pub mod Timedelta
pub mod Format
pub mod Hex
pub mod Words
pub mod Dict
pub mod Regex
pub mod Json
