-- ===== src/Parse/Reject.antt =====
-- Inputs that src/parse.rs documents as refused.
use mmreg.Message.{invalid_digit}
use mmreg.Prelude.{ℕ, ◌∷◌, Text, ◌≡◌, ◌⊎◌, inl, inr, err}
use mmreg.Strings.{trim}
use mmreg.Parse.{refused_start, parse_u64_radix}

-- Of a trimmed input that starts with `0x0x` or `0d0d`, the second prefix is refused at its letter,
-- whatever follows and whatever the default radix.
parse_u64_radix_duplicate_prefix :
    (input rest : Text) (c r : ℕ)
    → (c ≡ b'x') ⊎ (c ≡ b'd')
    → trim input ≡ b'0' ∷ c ∷ b'0' ∷ c ∷ rest
    → parse_u64_radix input r ≡ err (invalid_digit c input)
unfolding parse_u64_radix
parse_u64_radix_duplicate_prefix input rest c r (inl x) h = rw (h, x, refused_start)
parse_u64_radix_duplicate_prefix input rest c r (inr d) h = rw (h, d, refused_start)
