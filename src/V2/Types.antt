-- ===== src/V2/Types.antt =====
-- The arguments of a status call, and what v2.py raises.
use pysubunit.Prelude.{
  ◌+◌, refl, ℕ, Bool, Option, none, some, List, [], ◌∷◌, ◌++◌, ◌≡◌, if◌then◌else◌, ◌||◌, false,
  eq_bytes,
}
use pysubunit.Prelude.Int.{ℤ, pos, negsuc}
use pysubunit.Std.Timedelta.{Timedelta}
use pysubunit.Std.Format.{codes, decimal, hex_lower}

abbrev pub Text : Type 0
Text = List ℕ

abbrev pub Bytes : Type 0
Bytes = List ℕ

-- The keys of `status_mask` but None.
pub data TestStatus : Type 0 where
  exists inprogress success uxsuccess skip fail xfail : TestStatus

-- The keyword arguments of StreamResult.status. A set of tags is a list without repetitions.
pub record StatusEvent : Type 0 where
  pub test_id : Option Text
  pub test_status : Option TestStatus
  pub test_tags : Option (List Text)
  pub runnable : Bool
  pub file_name : Option Text
  pub file_bytes : Option Bytes
  pub eof : Bool
  pub mime_type : Option Text
  pub route_code : Option Text
  pub timestamp : Option Timedelta

-- The ParseErrors of the parser, with what their texts print.
pub data ParseError : Type 0 where
  short_header : ℕ → ParseError
  short_packet : ℕ → ℤ → ParseError
  length_too_wide : ParseError
  bad_checksum : ℕ → ℕ → ParseError
  content_past_end : ℕ → ℕ → ParseError
  text_past_end : ℤ → ℕ → ℕ → ParseError
  text_with_nul : ℤ → ParseError
  text_partial : ℤ → ℕ → ParseError
  text_not_utf8 : ℤ → ParseError

pub data Error : Type 0 where
  parse_error : ParseError → Error
  struct_error unicode_encode_error type_error : Error
  value_too_large length_too_long : ℕ → Error
  non_subunit_content : Bytes → Error

pub data Result {ℓ} (Value : Type ℓ) : Type ℓ where
  ok : Value → Result Value
  err : Error → Result Value

infixl 5 ◌>>=◌
abbrev pub ◌>>=◌ {ℓ κ} :
    {First : Type ℓ} {Second : Type κ} → Result First → (First → Result Second) → Result Second
err raised >>= next = err raised
ok value >>= next = next value

-- A library call that answers `none` raises `e`.
abbrev pub or_raise {ℓ} : {A : Type ℓ} → Error → Option A → Result A
or_raise e none = err e
or_raise e (some a) = ok a

unfoldable pub print_int : ℤ → Text
print_int (pos n) = decimal n
print_int (negsuc n) = codes "-" ++ decimal (n + 1)

-- `error.args[0]`
unfoldable pub message : ParseError → Text
unfolding print_int decimal hex_lower
message (short_header got) = codes "Short read - got " ++ (decimal got ++ codes " bytes, wanted 5")
message (short_packet got wanted) =
    codes "Short read - got "
    ++ (decimal got ++ (codes " bytes, wanted " ++ (print_int wanted ++ codes " bytes")))
message length_too_wide = codes "3 byte maximum given but 4 byte value found."
message (bad_checksum calculated stored) =
    codes "Bad checksum - calculated (0x"
    ++ (hex_lower calculated ++ (codes "), stored (0x" ++ (hex_lower stored ++ codes ")")))
message (content_past_end claimed available) =
    codes "File content extends past end of packet: claimed "
    ++ (decimal claimed ++ (codes " bytes, " ++ (decimal available ++ codes " available")))
message (text_past_end offset claimed available) =
    codes "UTF8 string at offset "
    ++ (print_int offset
        ++ (codes " extends past end of packet: claimed "
            ++ (decimal claimed
                ++ (codes " bytes, " ++ (decimal available ++ codes " available")))))
message (text_with_nul offset) =
    codes "UTF8 string at offset " ++ (print_int offset ++ codes " contains NUL byte")
message (text_partial offset undecoded) =
    codes "Invalid (partially decodable) string at offset "
    ++ (print_int offset ++ (codes ", " ++ (decimal undecoded ++ codes " undecoded bytes")))
message (text_not_utf8 offset) =
    codes "UTF8 string at offset " ++ (print_int offset ++ codes " is not UTF8")

-- set.add
unfoldable pub contains : List Text → Text → Bool
contains [] t = false
contains (x ∷ xs) t = eq_bytes x t || contains xs t

unfoldable pub add_tag : List Text → Text → List Text
add_tag tags t = if contains tags t then tags else tags ++ t ∷ []

-- What a chain of steps that succeeded went through.
pub >>=-eq-ok {ℓ κ} :
    {First : Type ℓ} {Second : Type κ} (step : Result First) (next : First → Result Second)
    {end : Second}
    → (step >>= next) ≡ ok end
    → (value : First) × (step ≡ ok value) × (next value ≡ ok end)
>>=-eq-ok (err raised) next went = cc
>>=-eq-ok (ok value) next went = (value, refl, went)

pub ok-injective {ℓ} : {A : Type ℓ} {a b : A} → ok a ≡ ok b → a ≡ b
ok-injective h = cc

pub or_raise-ok {ℓ} :
    {A : Type ℓ} (e : Error) (o : Option A) {a : A} → or_raise e o ≡ ok a → o ≡ some a
or_raise-ok e none h = cc
or_raise-ok e (some a) h = cc
