-- ===== src/Oleps/Codepage.antt =====
-- codepageEncoding of codepage.go. The encodings themselves are those of golang.org/x/text.
use go_cfb.Base.{ℕ, ◌||◌, List, Option, none, some, ◌==◌, if◌then◌else◌}

-- The encodings of golang.org/x/text that are used. utf16_le ignores the byte order mark.
pub data Charset : Type 0 where
  windows1252 utf16_le utf8 windows874 shift_jis gbk euc_kr big5 windows1250 : Charset
  windows1251 windows1253 windows1254 windows1255 windows1256 windows1257 windows1258 : Charset
  macintosh iso8859_1 iso8859_2 iso8859_3 iso8859_4 iso8859_5 iso8859_6 iso8859_7 : Charset
  iso8859_8 iso8859_9 iso8859_13 iso8859_15 : Charset

-- golang.org/x/text: NewDecoder().Bytes and the transformation by NewEncoder() of each encoding, on
-- strings in UTF-8. `none` is an error.
pub record Texts : Type 0 where
  pub to_utf8 : Charset → List ℕ → Option (List ℕ)
  pub from_utf8 : Charset → List ℕ → Option (List ℕ)

unfoldable pub codepage_encoding : ℕ → Option Charset
codepage_encoding cp =
    if cp == 0 || cp == 1252
    then some windows1252
    else if cp == 1200
    then some utf16_le
    else if cp == 65001
    then some utf8
    else if cp == 874
    then some windows874
    else if cp == 932
    then some shift_jis
    else if cp == 936
    then some gbk
    else if cp == 949
    then some euc_kr
    else if cp == 950
    then some big5
    else if cp == 1250
    then some windows1250
    else if cp == 1251
    then some windows1251
    else if cp == 1253
    then some windows1253
    else if cp == 1254
    then some windows1254
    else if cp == 1255
    then some windows1255
    else if cp == 1256
    then some windows1256
    else if cp == 1257
    then some windows1257
    else if cp == 1258
    then some windows1258
    else if cp == 10000
    then some macintosh
    else if cp == 28591
    then some iso8859_1
    else if cp == 28592
    then some iso8859_2
    else if cp == 28593
    then some iso8859_3
    else if cp == 28594
    then some iso8859_4
    else if cp == 28595
    then some iso8859_5
    else if cp == 28596
    then some iso8859_6
    else if cp == 28597
    then some iso8859_7
    else if cp == 28598
    then some iso8859_8
    else if cp == 28599
    then some iso8859_9
    else if cp == 28603
    then some iso8859_13
    else if cp == 28605
    then some iso8859_15
    else none
