-- ===== src/Error/Prefixed.antt =====
-- What every message of src/error.rs starts with.
use mmreg.Error.Display.{display}
use mmreg.Error.{MmregError, code, blueprint_unmapped}
use mmreg.Message.{ProfileMessage}
use mmreg.Preflight.{starts_with}
use mmreg.Strings.{strip_prefix}
use mmreg.Prelude.{Text, codes, true, ◌++◌, ◌≡◌, refl}

-- The message of every error starts with its code in brackets.
pub display-code :
    (details_of : ProfileMessage → Text) (e : MmregError)
    → starts_with (display details_of e) (codes "[" ++ code e ++ codes "] ") ≡ true
unfolding display code starts_with strip_prefix
display-code details_of (blueprint_unmapped _ _) = refl
display-code details_of _ = refl
