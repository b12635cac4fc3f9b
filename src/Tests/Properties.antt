-- ===== src/Tests/Properties.antt =====
-- Runs of the code of property sets.
use go_cfb.Base.{ℕ, ◌≡◌, ◌%◌, refl, List, [], ◌∷◌, ◌++◌, some, ok, length, replicate, arith}
use go_cfb.Bytes.{put_u16, put_u32}
use go_cfb.Oleps.{i2, ui4, lpstr, property_type, PropertySet, PropertySetStream}
use go_cfb.Oleps.Codepage.{Texts, windows1252, codepage_encoding}
use go_cfb.Oleps.Decode.{unmarshal}
use go_cfb.Oleps.Encode.{as_code_page, find_code_page, marshal}
use go_cfb.Oleps.Encode.RoundTrip.{IsReadableStream, marshal-IsReadableStream, unmarshal-marshal}

-- Texts whose bytes are the same in UTF-8 and in every code page.
abbrev plain : Texts
plain = record { to_utf8 = λ e s. some s; from_utf8 = λ e s. some s }

abbrev sample_set : PropertySet
sample_set = record {
  fmtid = replicate 16 7;
  properties =
      record { id = 1; value = i2 1252 }
      ∷ record { id = 2; value = lpstr (0x61 ∷ 0x62 ∷ 0x63 ∷ []) }
      ∷ record { id = 14; value = ui4 3 }
      ∷ [];
}

abbrev sample : PropertySetStream
sample = record {
  clsid = replicate 16 0;
  version = 0;
  system_identifier = 0x00020006;
  property_sets = sample_set ∷ [];
}

-- What Marshal writes for it.
abbrev sample_bytes : List ℕ
sample_bytes =
    254 ∷ 255 ∷ 0 ∷ 0 ∷ 6 ∷ 0 ∷ 2 ∷ 0 ∷ replicate 16 0
    ++ (1 ∷ 0 ∷ 0 ∷ 0 ∷ replicate 16 7)
    ++ (48 ∷ 0 ∷ 0 ∷ 0 ∷ 60 ∷ 0 ∷ 0 ∷ 0 ∷ 3 ∷ 0 ∷ 0 ∷ 0 ∷ [])
    ++ (1 ∷ 0 ∷ 0 ∷ 0 ∷ 32 ∷ 0 ∷ 0 ∷ 0 ∷ 2 ∷ 0 ∷ 0 ∷ 0 ∷ 40 ∷ 0 ∷ 0 ∷ 0 ∷ 14 ∷ 0 ∷ 0 ∷ 0 ∷ 52 ∷ 0
        ∷ 0 ∷ 0 ∷ [])
    ++ (2 ∷ 0 ∷ 0 ∷ 0 ∷ 228 ∷ 4 ∷ 0 ∷ 0 ∷ 30 ∷ 0 ∷ 0 ∷ 0 ∷ 4 ∷ 0 ∷ 0 ∷ 0 ∷ 97 ∷ 98 ∷ 99 ∷ 0 ∷ [])
    ++ (19 ∷ 0 ∷ 0 ∷ 0 ∷ 3 ∷ 0 ∷ 0 ∷ 0 ∷ [])

sample-IsReadableStream : IsReadableStream plain sample
unfolding find_code_page codepage_encoding as_code_page
sample-IsReadableStream = record {
  set = sample_set;
  one = refl;
  class = refl;
  version = omega arith;
  system = omega arith;
  fmtid_size = refl;
  readable = record {
    cp = 1252;
    enc = windows1252;
    found = refl;
    known = refl;
    readable = (
      record {
        named = omega arith;
        narrow = omega arith;
        code = put_u16 1252;
        coded = (omega arith, refl);
      },
      (
        record {
          named = omega arith;
          narrow = omega arith;
          code = put_u32 4 ++ (0x61 ∷ 0x62 ∷ 0x63 ∷ 0 ∷ []);
          coded = (0x61 ∷ 0x62 ∷ 0x63 ∷ [], refl, refl, omega arith, refl);
        },
        (
          record {
            named = omega arith;
            narrow = omega arith;
            code = put_u32 3;
            coded = (omega arith, refl);
          },
          tt,
        ),
      ),
    );
  };
}

sample-marshal : marshal plain sample ≡ ok sample_bytes
unfolding marshal put_u16 put_u32 codepage_encoding property_type
sample-marshal = refl

marshal-IsReadableStream_example : (b : List ℕ) × (marshal plain sample ≡ ok b) × (length b % 4 ≡ 0)
marshal-IsReadableStream_example = marshal-IsReadableStream plain sample sample-IsReadableStream

unmarshal-marshal_example : unmarshal plain sample_bytes ≡ ok sample
unmarshal-marshal_example =
    unmarshal-marshal plain sample sample-IsReadableStream sample_bytes sample-marshal (omega arith)
