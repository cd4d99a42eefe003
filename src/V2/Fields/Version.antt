-- ===== src/V2/Fields/Version.antt =====
-- The four version bits of the flags.
use pysubunit.Prelude.{ℕ, ◌+◌, ◌*◌, ◌^◌, ◌<◌, ◌≡◌, arith}
use pysubunit.Prelude.Bits.{bit_and_field}
use pysubunit.V2.Flags.{
  flag_test_id, flag_route_code, flag_timestamp, flag_runnable, flag_tags, flag_mime_type, flag_eof,
  flag_file_content, test_flag,
}
use pysubunit.V2.Fields.{read_fields}

test_flag-version :
    (v flags flag : ℕ)
    → flags < 2 ^ 12
    → flag < 2 ^ 12
    → test_flag (v * 2 ^ 12 + flags) flag ≡ test_flag flags flag
unfolding test_flag
test_flag-version v flags flag h k = rw (bit_and_field 12 v flags flag h k)

-- The parser reads the parts of a body in the same way under every version number.
pub read_fields-version :
    (v flags : ℕ) → flags < 2 ^ 12 → read_fields (v * 2 ^ 12 + flags) ≡ read_fields flags
unfolding read_fields
read_fields-version v flags h = rw (
  test_flag-version v flags flag_timestamp h (omega arith),
  test_flag-version v flags flag_test_id h (omega arith),
  test_flag-version v flags flag_tags h (omega arith),
  test_flag-version v flags flag_mime_type h (omega arith),
  test_flag-version v flags flag_file_content h (omega arith),
  test_flag-version v flags flag_route_code h (omega arith),
  test_flag-version v flags flag_runnable h (omega arith),
  test_flag-version v flags flag_eof h (omega arith),
  bit_and_field 12 v flags 0x0007 h (omega arith),
)
