-- ===== src/Preflight/Clocks.antt =====
-- Clocks of a device: src/memcheck.rs (`check_device_clocks`, `parse_clk_summary_row`,
-- `evaluate_clock_state`, `check_clk_summary`).
pub mod Gated
use mmreg.Error.{MmregError, zombie_clock_gated}
use mmreg.Preflight.{FileSystem, join, find, take, drop}
use mmreg.Prelude.{
  ℕ, zero, suc, ◌+◌, ◌*◌, ◌%◌, ◌^◌, Bool, true, false, ◌||◌, List, [], ◌∷◌, ◌++◌, Option, none,
  some, get_elem?, ltb, ◌==◌, if◌then◌else◌, Text, codes, text_eq, member, Result, ok, err, ◌>>=◌,
  and_then,
}
use mmreg.Strings.{trim, is_whitespace, within, from_str_radix}

-- What a first byte of UTF-8 starts: how many bytes follow, its bits, and the range of the next.
abbrev pub utf8_lead : ℕ → Option (ℕ × ℕ × ℕ × ℕ)
utf8_lead b =
    if ltb b 0x80
    then some (0, b, 0, 0)
    else if within 0xc2 0xdf b
    then some (1, b % 32, 0x80, 0xbf)
    else if b == 0xe0
    then some (2, 0, 0xa0, 0xbf)
    else if b == 0xed
    then some (2, 13, 0x80, 0x9f)
    else if within 0xe1 0xef b
    then some (2, b % 16, 0x80, 0xbf)
    else if b == 0xf0
    then some (3, 0, 0x90, 0xbf)
    else if within 0xf1 0xf3 b
    then some (3, b % 8, 0x80, 0xbf)
    else if b == 0xf4
    then some (3, 4, 0x80, 0x8f)
    else none

abbrev pub then_char : ℕ → Option Text → Option Text
then_char c none = none
then_char c (some t) = some (c ∷ t)

-- The rest of a text, so many bytes before the end of a character.
unfoldable pub decode_utf8 : ℕ → ℕ → ℕ → ℕ → List ℕ → Option Text
decode_utf8 zero acc lo hi [] = some []
decode_utf8 (suc n) acc lo hi [] = none
decode_utf8 zero acc lo hi (b ∷ bs) = elim (utf8_lead b) [
  | none ↦ none
  | some (zero, c, next_lo, next_hi) ↦ then_char c (decode_utf8 zero 0 0 0 bs)
  | some (suc n, bits, next_lo, next_hi) ↦ decode_utf8 (suc n) bits next_lo next_hi bs
]
decode_utf8 (suc zero) acc lo hi (b ∷ bs) = elim (within lo hi b) [
  | true ↦ then_char (acc * 64 + b % 64) (decode_utf8 zero 0 0 0 bs)
  | false ↦ none
]
decode_utf8 (suc (suc n)) acc lo hi (b ∷ bs) = elim (within lo hi b) [
  | true ↦ decode_utf8 (suc n) (acc * 64 + b % 64) 0x80 0xbf bs
  | false ↦ none
]

-- `std::str::from_utf8(..).ok()`.
unfoldable pub from_utf8 : List ℕ → Option Text
unfolding decode_utf8
from_utf8 bs = decode_utf8 0 0 0 0 bs

-- `raw.split(|&b| b == 0)`.
unfoldable pub split_nul : List ℕ → List (List ℕ)
split_nul [] = [] ∷ []
split_nul (b ∷ bs) = elim (split_nul bs) [
  | [] ↦ []
  | part ∷ parts ↦ if b == 0 then [] ∷ part ∷ parts else (b ∷ part) ∷ parts
]

-- A part's name, if it is UTF-8 and not blank.
abbrev pub add_name : Option Text → List Text → List Text
add_name none names = names
add_name (some []) names = names
add_name (some (c ∷ cs)) names = (c ∷ cs) ∷ names

unfoldable pub part_name : List ℕ → Option Text
unfolding from_utf8 trim
part_name part = and_then (from_utf8 part) λ t. some (trim t)

unfoldable pub clock_names : List (List ℕ) → List Text
unfolding part_name
clock_names [] = []
clock_names (part ∷ parts) = add_name (part_name part) (clock_names parts)

-- `dt_clock_names`.
unfoldable pub dt_clock_names : FileSystem → Text → List Text
unfolding clock_names split_nul join
dt_clock_names fs dev_path = elim (fs.read (join dev_path (codes "of_node/clock-names"))) [
  | none ↦ []
  | some raw ↦ clock_names (split_nul raw)
]

-- The token that a text starts with, and those after it.
unfoldable pub tokens_from : Text → Text × List Text
tokens_from [] = ([], [])
tokens_from (c ∷ cs) =
    let rest = tokens_from cs in
    if is_whitespace c
    then ([], elim rest.0 [ [] ↦ rest.1 | d ∷ ds ↦ (d ∷ ds) ∷ rest.1 ])
    else (c ∷ rest.0, rest.1)

-- `split_whitespace`.
unfoldable pub split_whitespace : Text → List Text
unfolding tokens_from is_whitespace
split_whitespace t =
    let all = tokens_from t in elim all.0 [ [] ↦ all.1 | c ∷ cs ↦ (c ∷ cs) ∷ all.1 ]

-- The tokens of a line that are kept.
unfoldable pub line_tokens : Text → List Text
unfolding split_whitespace take
line_tokens line = take 12 (split_whitespace line)

-- `(enable_count, hw_enable)`.
pub record Row : Type 0 where
  pub enable_count : ℕ
  pub hw_enable : Option ℕ

-- `parse::<u32>().ok()`.
unfoldable pub parse_count : Text → Option ℕ
unfolding from_str_radix
parse_count t = and_then (from_str_radix t 10) λ v. if ltb v (2 ^ 32) then some v else none

unfoldable pub is_flag : Text → Bool
unfolding text_eq
is_flag t = text_eq t (codes "Y") || text_eq t (codes "N") || text_eq t (codes "-")

abbrev pub first_char : Text → Option ℕ
first_char [] = none
first_char (c ∷ cs) = some c

-- `parse_clk_summary_row`.
unfoldable pub parse_clk_summary_row : List Text → Option Row
unfolding parse_count is_flag find take drop
parse_clk_summary_row tokens = and_then (get_elem? tokens 1) λ enabled.
    and_then (parse_count enabled) λ enable_count. and_then (get_elem? tokens 2) λ prepared.
      and_then (parse_count prepared) λ prepare_count. some (record {
        enable_count = enable_count;
        hw_enable = and_then (find is_flag (take 7 (drop 3 tokens))) first_char;
      })

module _ (dev_name : Text) where
  abbrev pub idle_warning : Text → Text → Text
  idle_warning clk_name path =
      codes "Warning: Clock '"
      ++ clk_name
      ++ codes "' for device '"
      ++ dev_name
      ++ codes "' has enable_count == 0 in '"
      ++ path
      ++ codes "' (hardware-enable column unavailable)."

  abbrev pub count_warning : Text → Text → Text
  count_warning clk_name path =
      codes "Warning: Clock '"
      ++ clk_name
      ++ codes "' for device '"
      ++ dev_name
      ++ codes "' has software clk_enable_count == 0 at '"
      ++ path
      ++ codes "' (hardware-enable state unavailable)."

  -- A clock whose hardware state is not known.
  unfoldable pub warn_idle : Text → ℕ → Text → List Text → List Text
  warn_idle clk_name enable_count path warnings =
      if enable_count == 0 then warnings ++ idle_warning clk_name path ∷ [] else warnings

  -- `evaluate_clock_state`; the warnings are passed and returned.
  unfoldable pub evaluate_clock_state :
      Text → Row → Text → List Text → Result MmregError (List Text)
  unfolding warn_idle
  evaluate_clock_state clk_name row path warnings = elim row.hw_enable [
    | none ↦ ok (warn_idle clk_name row.enable_count path warnings)
    | some flag ↦
        if flag == b'N'
        then err (zombie_clock_gated dev_name clk_name path)
        else if flag == b'Y'
        then ok warnings
        else ok (warn_idle clk_name row.enable_count path warnings)
  ]

  -- A row names one of the clocks, or the device as consumer.
  unfoldable pub row_concerns : List Text → List Text → Bool
  unfolding member drop
  row_concerns names tokens =
      (elim (get_elem? tokens 0) [ none ↦ false | some clk ↦ member clk names ])
      || member dev_name (drop 3 tokens)

  abbrev pub clock_of : List Text → Text
  clock_of [] = []
  clock_of (clk ∷ tokens) = clk

  -- What a line adds, given the last row above it and its clock.
  unfoldable pub judge_row :
      List Text → Text → List Text → Row → List Text → Result MmregError (List Text)
  unfolding evaluate_clock_state row_concerns
  judge_row names path tokens row warnings =
      if row_concerns names tokens
      then evaluate_clock_state (clock_of tokens) row path warnings
      else ok warnings

  unfoldable pub judge_consumer :
      Text → List Text → Text → Option Row → List Text → Result MmregError (List Text)
  unfolding evaluate_clock_state member
  judge_consumer path tokens clock none warnings = ok warnings
  judge_consumer path tokens clock (some row) warnings =
      if member dev_name tokens then evaluate_clock_state clock row path warnings else ok warnings

  -- The loop of `check_clk_summary`.
  unfoldable pub check_lines :
      List Text → Text → Text → Option Row → List Text → List Text → Result MmregError (List Text)
  unfolding judge_row judge_consumer line_tokens parse_clk_summary_row
  check_lines names path clock state warnings [] = ok warnings
  check_lines names path clock state warnings (line ∷ lines) =
      elim (parse_clk_summary_row (line_tokens line)) [
        | some row ↦ judge_row names path (line_tokens line) row warnings >>= λ more.
            check_lines names path (clock_of (line_tokens line)) (some row) more lines
        | none ↦ judge_consumer path (line_tokens line) clock state warnings >>= λ more.
            check_lines names path clock state more lines
      ]

  -- `check_clk_summary`.
  unfoldable pub check_clk_summary :
      List Text → Text → List Text → List Text → Result MmregError (List Text)
  unfolding check_lines
  check_clk_summary names path warnings lines = check_lines names path [] none warnings lines

  -- The software counts, where there is no summary.
  unfoldable pub warn_counts : FileSystem → Text → List Text → List Text → List Text
  unfolding join trim text_eq
  warn_counts fs root [] warnings = warnings
  warn_counts fs root (clk ∷ names) warnings =
      let count_path = join (join root clk) (codes "clk_enable_count") in
      let is_zero : Bool = elim (fs.read_to_string count_path) [
        | none ↦ false
        | some raw ↦ text_eq (trim raw) (codes "0")
      ] in
      warn_counts fs root names
        (if is_zero then warnings ++ count_warning clk count_path ∷ [] else warnings)

  -- `check_device_clocks`.
  unfoldable pub check_device_clocks :
      FileSystem → Text → Text → List Text → Result MmregError (List Text)
  unfolding check_clk_summary warn_counts dt_clock_names join
  check_device_clocks fs dev_path root warnings =
      let names = dt_clock_names fs dev_path in
      let summary_path = join root (codes "clk_summary") in
      if fs.exists root
      then (elim (fs.lines summary_path) [
        | some lines ↦ check_clk_summary names summary_path warnings lines
        | none ↦ ok (warn_counts fs root names warnings)
      ])
      else ok warnings
