-- ===== src/V2/Flags.antt =====
-- The 16-bit flag word of a packet: the FLAG_ masks, status_mask and status_lookup.
pub mod Tests
use pysubunit.Prelude.{
  ℕ, zero, suc, Bool, Option, none, some, bit_and, bit_or, not, ◌==◌, if◌then◌else◌,
}
use pysubunit.V2.Types.{TestStatus, exists, inprogress, success, uxsuccess, skip, fail, xfail}

abbrev pub flag_test_id : ℕ
flag_test_id = 0x0800

abbrev pub flag_route_code : ℕ
flag_route_code = 0x0400

abbrev pub flag_timestamp : ℕ
flag_timestamp = 0x0200

abbrev pub flag_runnable : ℕ
flag_runnable = 0x0100

abbrev pub flag_tags : ℕ
flag_tags = 0x0080

abbrev pub flag_mime_type : ℕ
flag_mime_type = 0x0020

abbrev pub flag_eof : ℕ
flag_eof = 0x0010

abbrev pub flag_file_content : ℕ
flag_file_content = 0x0040

unfoldable pub status_mask : Option TestStatus → ℕ
status_mask none = 0
status_mask (some exists) = 0x1
status_mask (some inprogress) = 0x2
status_mask (some success) = 0x3
status_mask (some uxsuccess) = 0x4
status_mask (some skip) = 0x5
status_mask (some fail) = 0x6
status_mask (some xfail) = 0x7

-- The table's eight keys; a key is the low three bits of the flags, so there is no other.
unfoldable pub status_lookup : ℕ → Option TestStatus
status_lookup (suc zero) = some exists
status_lookup (suc (suc zero)) = some inprogress
status_lookup (suc (suc (suc zero))) = some success
status_lookup (suc (suc (suc (suc zero)))) = some uxsuccess
status_lookup (suc (suc (suc (suc (suc zero))))) = some skip
status_lookup (suc (suc (suc (suc (suc (suc zero)))))) = some fail
status_lookup (suc (suc (suc (suc (suc (suc (suc zero))))))) = some xfail
status_lookup _ = none

abbrev raise_flag : Bool → ℕ → ℕ → ℕ
raise_flag b flag flags = if b then bit_or flags flag else flags

-- Which parts the packet has.
pub record Parts : Type 0 where
  pub has_timestamp : Bool
  pub has_test_id : Bool
  pub has_tags : Bool
  pub is_runnable : Bool
  pub has_mime_type : Bool
  pub has_file : Bool
  pub is_eof : Bool
  pub has_route_code : Bool

-- The flags in the order in which _write_packet sets them, from version 2 on.
unfoldable pub flag_word : Parts → Option TestStatus → ℕ
unfolding status_mask
flag_word p status =
    let flags = raise_flag p.has_timestamp flag_timestamp 0x2000 in
    let flags = raise_flag p.has_test_id flag_test_id flags in
    let flags = raise_flag p.has_tags flag_tags flags in
    let flags = raise_flag p.is_runnable flag_runnable flags in
    let flags = raise_flag p.has_mime_type flag_mime_type flags in
    let flags = raise_flag p.has_file flag_file_content flags in
    let flags = raise_flag p.is_eof flag_eof flags in
    let flags = raise_flag p.has_route_code flag_route_code flags in
    bit_or flags (status_mask status)

-- `if flags & FLAG`
unfoldable pub test_flag : ℕ → ℕ → Bool
test_flag flags flag = not (bit_and flags flag == 0)
