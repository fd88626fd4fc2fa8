-- ===== src/ParseTests.antt =====
-- Inputs of the unit tests of src/parse.rs.
use mmreg.Prelude.{◌≡◌, refl, ok, err, codes}
use mmreg.Message.{invalid_digit, no_digits, invalid_integer, integer_overflow, radix_panic}
use mmreg.Parse.{parse_u64_radix, parse_u32_radix}

accepted :
    (parse_u64_radix (codes "0x4000_0000") 16 ≡ ok 0x4000_0000)
    × (parse_u64_radix (codes "0d1_024") 16 ≡ ok 1024)
    × (parse_u32_radix (codes "0xCAFE_BABE") 16 ≡ ok 0xcafe_babe)
    × (parse_u64_radix (codes "0xa0000100\n") 16 ≡ ok 0xa000_0100)
unfolding parse_u64_radix parse_u32_radix
accepted = (refl, refl, refl, refl)

rejected :
    (parse_u64_radix (codes "0x0x10") 16 ≡ err (invalid_digit b'x' (codes "0x0x10")))
    × (parse_u64_radix (codes "0x___") 16 ≡ err (no_digits (codes "0x___")))
    × (parse_u64_radix (codes "-1") 10 ≡ err (invalid_integer (codes "-1")))
    × (parse_u64_radix (codes "0x1_0000_0000_0000_0000") 16
        ≡ err (integer_overflow (codes "0x1_0000_0000_0000_0000")))
    × (parse_u64_radix (codes "!") 37 ≡ err (radix_panic 37))
unfolding parse_u64_radix
rejected = (refl, refl, refl, refl, refl)
