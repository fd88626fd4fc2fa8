-- ===== src/Capi/Flags.antt =====
-- Flags of the open functions: bindings/c/src/lib.rs, `parse_flags`.
use mmreg.Bits.{complement}
use mmreg.Capi.{Errors, set_arg_error}
use mmreg.Error.Format.{hex_word}
use mmreg.Prelude.{
  Text, ◌++◌, ℕ, zero, suc, ◌+◌, ◌*◌, ◌/◌, ◌^◌, ◌<◌, Bool, true, false, not, ◌&&◌, Option, none,
  some, bit_and, ◌==◌, ==_iff, if◌then◌else◌, codes, ◌≡◌, refl, sym, ap, ◌∙◌, arith,
}

-- What flags say.
pub record Flags : Type 0 where
  pub read_only : Bool
  pub force : Bool
  pub mock : Bool
  pub region_index : ℕ

-- `KNOWN_FLAGS_MASK`.
abbrev pub known_flags_mask : ℕ
known_flags_mask = 1 + 2 + 4 + 0xff00

abbrev pub has_flag : ℕ → ℕ → Bool
has_flag flags bit = not (bit_and flags bit == 0)

abbrev pub decode_flags : ℕ → Flags
decode_flags flags = record {
  read_only = has_flag flags 1;
  force = has_flag flags 2;
  mock = has_flag flags 4;
  region_index = bit_and (flags / 2 ^ 8) 0xff;
}

abbrev pub has_unknown : ℕ → Bool
has_unknown flags = not (bit_and flags (complement 32 known_flags_mask) == 0)

abbrev pub unknown_message : ℕ → Text
unknown_message flags =
    codes "Unknown flag bits in 0x"
    ++ hex_word flags
    ++ codes ". Remediation: Use MMREG_O_RDONLY, MMREG_O_FORCE, MMREG_O_MOCK, and MMREG_REGION(n)."

-- The checks of `parse_flags`.
unfoldable pub judge_flags : ℕ → ℕ → Bool → Flags → Errors → Option Flags × Errors
unfolding set_arg_error
judge_flags thread flags unknown f errors =
    if unknown
    then (none, set_arg_error thread (unknown_message flags) errors)
    else if f.mock && not f.force
    then (none, set_arg_error thread (codes "MMREG_O_MOCK requires MMREG_O_FORCE.") errors)
    else (some f, errors)

-- `parse_flags`.
unfoldable pub parse_flags : ℕ → ℕ → Errors → Option Flags × Errors
unfolding judge_flags
parse_flags thread flags errors =
    judge_flags thread flags (has_unknown flags) (decode_flags flags) errors

abbrev bit_of : Bool → ℕ → ℕ
bit_of true bit = bit
bit_of false bit = 0

-- Flags as the header's macros put them together.
unfoldable pub encode_flags : Flags → ℕ
encode_flags f = bit_of f.read_only 1 + bit_of f.force 2 + bit_of f.mock 4 + f.region_index * 2 ^ 8

-- A test of every region before the last.
passes_regions : (ℕ → Bool) → ℕ → Bool
passes_regions test zero = true
passes_regions test (suc last) =
    let others = passes_regions test last in if test last then others else false

passes_region :
    (test : ℕ → Bool) (count region : ℕ)
    → region < count
    → passes_regions test count ≡ true
    → test region ≡ true
unfolding passes_regions
passes_region test zero region inside h = absurd (omega arith)
passes_region test (suc last) region inside h = ground (arith, passes_region test last region)

abbrev made : Bool → Bool → Bool → ℕ → Flags
made r f m n = record { read_only = r; force = f; mock = m; region_index = n }

abbrev same_bool : Bool → Bool → Bool
same_bool true b = b
same_bool false b = not b

abbrev same_flags : Flags → Flags → Bool
same_flags a b =
    same_bool a.read_only b.read_only
    && same_bool a.force b.force
    && same_bool a.mock b.mock
    && (a.region_index == b.region_index)

same_bool_eq : (a b : Bool) → same_bool a b ≡ true → a ≡ b
same_bool_eq true b h = sym h
same_bool_eq false true h = cc
same_bool_eq false false h = refl

parts :
    (a b c d : Bool) → (a && b && c && d) ≡ true → (a ≡ true) × (b ≡ true) × (c ≡ true) × (d ≡ true)
parts a b c d h = ground arith

same_flags_eq : (a b : Flags) → same_flags a b ≡ true → a ≡ b
same_flags_eq a b h =
    let (ro, force, mock, region) =
      parts (same_bool a.read_only b.read_only) (same_bool a.force b.force)
        (same_bool a.mock b.mock) (a.region_index == b.region_index) h in
    let ro_is = same_bool_eq a.read_only b.read_only ro in
    let force_is = same_bool_eq a.force b.force force in
    let mock_is = same_bool_eq a.mock b.mock mock in
    let region_is = (==_iff a.region_index b.region_index).0 region in
    λ i. made (ro_is i) (force_is i) (mock_is i) (region_is i)

-- The flags are decoded, without an unknown bit.
abbrev decodes : Bool → Bool → Bool → ℕ → Bool
decodes r f m n =
    let flags = encode_flags (made r f m n) in
    not (has_unknown flags) && same_flags (decode_flags flags) (made r f m n)

both : (a b : Bool) → (not a && b) ≡ true → (a ≡ false) × (b ≡ true)
both a b h = ground arith

decodes_table : (r f m : Bool) → passes_regions (decodes r f m) 256 ≡ true
unfolding passes_regions encode_flags
decodes_table true true true = refl
decodes_table true true false = refl
decodes_table true false true = refl
decodes_table true false false = refl
decodes_table false true true = refl
decodes_table false true false = refl
decodes_table false false true = refl
decodes_table false false false = refl

-- Flags that are put together are taken apart again, unless they ask for the mock without force:
-- then they are refused, with an error for the calling thread.
pub parse_flags-encode :
    (thread : ℕ) (f : Flags) (errors : Errors)
    → f.region_index < 256
    → parse_flags thread (encode_flags f) errors ≡ (
        if f.mock && not f.force
        then (none, set_arg_error thread (codes "MMREG_O_MOCK requires MMREG_O_FORCE.") errors)
        else (some f, errors))
unfolding parse_flags
parse_flags-encode thread f errors h =
    let table =
      passes_region (decodes f.read_only f.force f.mock) 256 f.region_index h
        (decodes_table f.read_only f.force f.mock) in
    let (known, same) =
      both (has_unknown (encode_flags f)) (same_flags (decode_flags (encode_flags f)) f) table in
    ap (λ b. judge_flags thread (encode_flags f) b (decode_flags (encode_flags f)) errors) known
    ∙ ap (λ g. judge_flags thread (encode_flags f) false g errors)
        (same_flags_eq (decode_flags (encode_flags f)) f same)
    ∙ unfold judge_flags in refl
