-- ===== src/IomemTests.antt =====
-- /proc/iomem with a bus and a device below it, and with memory (src/memcheck.rs).
use mmreg.Error.{blueprint_system_ram}
use mmreg.Iomem.Leaves.{entries_of, reference, parse_iomem-reference}
use mmreg.Iomem.{indent_of, iomem_entry, starts_with_ignore_case, any_prefix, parse_iomem}
use mmreg.Prelude.{
  ◌+◌, ◌-◌, List, [], ◌∷◌, true, false, ok, err, max, Text, codes, ◌≡◌, refl, arith,
}
use mmreg.Strings.{trim, split_once, from_str_radix, to_lower}

abbrev lines : List Text
lines =
    codes "00100000-3fffffff : System RAM\n"
    ∷ codes "a0000000-a0ffffff : axi\n"
    ∷ codes "  a0000000-a0000fff : serial\n"
    ∷ []

listed :
    (parse_iomem lines 0xa000_0000 0x1000 ≡ ok true)
    × (parse_iomem lines 0xa000_1000 0x1000 ≡ ok false)
    × (parse_iomem lines 0x200_0000 4
        ≡ err (blueprint_system_ram 0x200_0000 4 (codes "System RAM")))
unfolding parse_iomem iomem_entry split_once trim from_str_radix any_prefix starts_with_ignore_case
    to_lower indent_of
listed = (refl, refl, refl)

parse_iomem-reference_example :
    parse_iomem lines 0xa000_0000 0x1000
    ≡ reference (entries_of lines) 0xa000_0000 0x1000 (0xa000_0000 + (max 0x1000 1 - 1))
parse_iomem-reference_example = parse_iomem-reference lines 0xa000_0000 0x1000 (omega arith)
