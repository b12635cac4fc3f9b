-- ===== src/Oleps.antt =====
-- oleps.go and the types of value.go: property set streams.
--
-- A byte slice and a string are lists of numbers below 256. The signed values I2 and I4 stand for
-- their bit patterns, as the conversions of the coders take them. A nil Value is left out.
pub mod Codepage
pub mod Decode
pub mod Encode
use go_cfb.Base.{ℕ, List, Result}
use go_cfb.FileTime.{Time}

abbrev pub cp_win_unicode : ℕ
cp_win_unicode = 0x04B0

abbrev pub byte_order : ℕ
byte_order = 0xFFFE

abbrev pub vt_i2 : ℕ
vt_i2 = 0x02

abbrev pub vt_i4 : ℕ
vt_i4 = 0x03

abbrev pub vt_ui4 : ℕ
vt_ui4 = 0x13

abbrev pub vt_lpstr : ℕ
vt_lpstr = 0x1E

abbrev pub vt_file_time : ℕ
vt_file_time = 0x40

-- Value: the types that have a coder.
pub data Value : Type 0 where
  i2 : ℕ → Value
  i4 : ℕ → Value
  ui4 : ℕ → Value
  lpstr : List ℕ → Value
  file_time : Time → Value

-- propertyType
unfoldable pub property_type : Value → ℕ
property_type (i2 n) = vt_i2
property_type (i4 n) = vt_i4
property_type (ui4 n) = vt_ui4
property_type (lpstr s) = vt_lpstr
property_type (file_time t) = vt_file_time

pub record Property : Type 0 where
  pub id : ℕ
  pub value : Value

pub record PropertySet : Type 0 where
  pub fmtid : List ℕ
  pub properties : List Property

pub record PropertySetStream : Type 0 where
  pub clsid : List ℕ
  pub version : ℕ
  pub system_identifier : ℕ
  pub property_sets : List PropertySet

-- One constructor for each message of decode.go, value.go and encode.go.
pub data OlepsError : Type 0 where
  -- ErrFormat
  bad_byte_order bad_version bad_count bad_offset bad_size bad_property_offset : OlepsError
  bad_code_page no_code_page truncated bad_padding no_terminator bad_string : OlepsError
  -- ErrUnsupported
  many_sets named_properties : OlepsError
  unknown_code_page unknown_type : ℕ → OlepsError
  -- io.ErrUnexpectedEOF
  unexpected_eof : OlepsError
  -- the errors of the encoder
  set_count set_version code_page_type code_page_missing cannot_encode bad_time : OlepsError

abbrev pub Coded : Type 0 → Type 0
Coded A = Result OlepsError A
