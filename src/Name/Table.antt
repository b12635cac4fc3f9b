-- ===== src/Name/Table.antt =====
-- casetable.go: the ranges of the uppercase mapping.
use go_cfb.Base.{ℕ, List, [], ◌∷◌, ◌^◌}
use go_cfb.Base.Int.{ℤ, pos, negsuc}

-- caseRange; `hi` is the last code unit of the range.
pub record CaseRange : Type 0 where
  pub lo : ℕ
  pub hi : ℕ
  pub delta : ℤ

-- The delta that marks a range of alternating upper and lower case pairs.
abbrev pub upper_lower : ℤ
upper_lower = pos (2 ^ 14)

abbrev row : ℕ → ℕ → ℤ → CaseRange
row lo hi delta = record { lo = lo; hi = hi; delta = delta }

unfoldable pub case_table : List CaseRange
case_table =
    row 0x0061 0x007A (negsuc 31)
    ∷ row 0x00E0 0x00F6 (negsuc 31)
    ∷ row 0x00F8 0x00FE (negsuc 31)
    ∷ row 0x00FF 0x00FF (pos 121)
    ∷ row 0x0100 0x012F upper_lower
    ∷ row 0x0132 0x0137 upper_lower
    ∷ row 0x0139 0x0148 upper_lower
    ∷ row 0x014A 0x0177 upper_lower
    ∷ row 0x0179 0x017E upper_lower
    ∷ row 0x0180 0x0180 (pos 195)
    ∷ row 0x0182 0x0185 upper_lower
    ∷ row 0x0188 0x0188 (negsuc 0)
    ∷ row 0x018C 0x018C (negsuc 0)
    ∷ row 0x0192 0x0192 (negsuc 0)
    ∷ row 0x0195 0x0195 (pos 97)
    ∷ row 0x0199 0x0199 (negsuc 0)
    ∷ row 0x019A 0x019A (pos 163)
    ∷ row 0x019E 0x019E (pos 130)
    ∷ row 0x01A0 0x01A5 upper_lower
    ∷ row 0x01A8 0x01A8 (negsuc 0)
    ∷ row 0x01AD 0x01AD (negsuc 0)
    ∷ row 0x01B0 0x01B0 (negsuc 0)
    ∷ row 0x01B3 0x01B6 upper_lower
    ∷ row 0x01B9 0x01B9 (negsuc 0)
    ∷ row 0x01BD 0x01BD (negsuc 0)
    ∷ row 0x01BF 0x01BF (pos 56)
    ∷ row 0x01C6 0x01C6 (negsuc 1)
    ∷ row 0x01C9 0x01C9 (negsuc 1)
    ∷ row 0x01CC 0x01CC (negsuc 1)
    ∷ row 0x01CD 0x01DC upper_lower
    ∷ row 0x01DD 0x01DD (negsuc 78)
    ∷ row 0x01DE 0x01EF upper_lower
    ∷ row 0x01F3 0x01F3 (negsuc 1)
    ∷ row 0x01F5 0x01F5 (negsuc 0)
    ∷ row 0x01F8 0x021F upper_lower
    ∷ row 0x0222 0x0233 upper_lower
    ∷ row 0x023A 0x023A (pos 10795)
    ∷ row 0x023C 0x023C (negsuc 0)
    ∷ row 0x023E 0x023E (pos 10792)
    ∷ row 0x0242 0x0242 (negsuc 0)
    ∷ row 0x0246 0x024F upper_lower
    ∷ row 0x0253 0x0253 (negsuc 209)
    ∷ row 0x0254 0x0254 (negsuc 205)
    ∷ row 0x0256 0x0257 (negsuc 204)
    ∷ row 0x0259 0x0259 (negsuc 201)
    ∷ row 0x025B 0x025B (negsuc 202)
    ∷ row 0x0260 0x0260 (negsuc 204)
    ∷ row 0x0263 0x0263 (negsuc 206)
    ∷ row 0x0268 0x0268 (negsuc 208)
    ∷ row 0x0269 0x0269 (negsuc 210)
    ∷ row 0x026B 0x026B (pos 10743)
    ∷ row 0x026F 0x026F (negsuc 210)
    ∷ row 0x0272 0x0272 (negsuc 212)
    ∷ row 0x0275 0x0275 (negsuc 213)
    ∷ row 0x027D 0x027D (pos 10727)
    ∷ row 0x0280 0x0280 (negsuc 217)
    ∷ row 0x0283 0x0283 (negsuc 217)
    ∷ row 0x0288 0x0288 (negsuc 217)
    ∷ row 0x0289 0x0289 (negsuc 68)
    ∷ row 0x028A 0x028B (negsuc 216)
    ∷ row 0x028C 0x028C (negsuc 70)
    ∷ row 0x0292 0x0292 (negsuc 218)
    ∷ row 0x037B 0x037D (pos 130)
    ∷ row 0x03AC 0x03AC (negsuc 37)
    ∷ row 0x03AD 0x03AF (negsuc 36)
    ∷ row 0x03B1 0x03B8 (negsuc 31)
    ∷ row 0x03B9 0x03B9 (negsuc 115)
    ∷ row 0x03BA 0x03BB (negsuc 31)
    ∷ row 0x03BC 0x03BC (negsuc 774)
    ∷ row 0x03BD 0x03C1 (negsuc 31)
    ∷ row 0x03C2 0x03C2 (negsuc 30)
    ∷ row 0x03C3 0x03CB (negsuc 31)
    ∷ row 0x03CC 0x03CC (negsuc 63)
    ∷ row 0x03CD 0x03CE (negsuc 62)
    ∷ row 0x03D8 0x03EF upper_lower
    ∷ row 0x03F2 0x03F2 (pos 7)
    ∷ row 0x03F8 0x03F8 (negsuc 0)
    ∷ row 0x03FB 0x03FB (negsuc 0)
    ∷ row 0x0430 0x044F (negsuc 31)
    ∷ row 0x0450 0x045F (negsuc 79)
    ∷ row 0x0460 0x0481 upper_lower
    ∷ row 0x048A 0x04BF upper_lower
    ∷ row 0x04C1 0x04CE upper_lower
    ∷ row 0x04CF 0x04CF (negsuc 14)
    ∷ row 0x04D0 0x0513 upper_lower
    ∷ row 0x0561 0x0586 (negsuc 47)
    ∷ row 0x1D7D 0x1D7D (pos 3814)
    ∷ row 0x1E00 0x1E95 upper_lower
    ∷ row 0x1EA0 0x1EF9 upper_lower
    ∷ row 0x1F00 0x1F07 (pos 8)
    ∷ row 0x1F10 0x1F15 (pos 8)
    ∷ row 0x1F20 0x1F27 (pos 8)
    ∷ row 0x1F30 0x1F37 (pos 8)
    ∷ row 0x1F40 0x1F45 (pos 8)
    ∷ row 0x1F51 0x1F51 (pos 8)
    ∷ row 0x1F53 0x1F53 (pos 8)
    ∷ row 0x1F55 0x1F55 (pos 8)
    ∷ row 0x1F57 0x1F57 (pos 8)
    ∷ row 0x1F60 0x1F67 (pos 8)
    ∷ row 0x1F70 0x1F71 (pos 74)
    ∷ row 0x1F72 0x1F75 (pos 86)
    ∷ row 0x1F76 0x1F77 (pos 100)
    ∷ row 0x1F78 0x1F79 (pos 128)
    ∷ row 0x1F7A 0x1F7B (pos 112)
    ∷ row 0x1F7C 0x1F7D (pos 126)
    ∷ row 0x1F80 0x1F87 (pos 8)
    ∷ row 0x1F90 0x1F97 (pos 8)
    ∷ row 0x1FA0 0x1FA7 (pos 8)
    ∷ row 0x1FB0 0x1FB1 (pos 8)
    ∷ row 0x1FB3 0x1FB3 (pos 9)
    ∷ row 0x1FCC 0x1FCC (negsuc 8)
    ∷ row 0x1FD0 0x1FD1 (pos 8)
    ∷ row 0x1FE0 0x1FE1 (pos 8)
    ∷ row 0x1FE5 0x1FE5 (pos 7)
    ∷ row 0x1FFC 0x1FFC (negsuc 8)
    ∷ row 0x214E 0x214E (negsuc 27)
    ∷ row 0x2170 0x217F (negsuc 15)
    ∷ row 0x2184 0x2184 (negsuc 0)
    ∷ row 0x24D0 0x24E9 (negsuc 25)
    ∷ row 0x2C30 0x2C5E (negsuc 47)
    ∷ row 0x2C61 0x2C61 (negsuc 0)
    ∷ row 0x2C67 0x2C6C upper_lower
    ∷ row 0x2C76 0x2C76 (negsuc 0)
    ∷ row 0x2C80 0x2CE3 upper_lower
    ∷ row 0x2D00 0x2D25 (negsuc 7263)
    ∷ row 0xFF41 0xFF5A (negsuc 31)
    ∷ []
