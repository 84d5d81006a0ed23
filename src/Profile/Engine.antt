-- ===== src/Profile/Engine.antt =====
-- From the text of a configuration to the lines of the engine (core/profile/config.go, uapi.go).
use mazzy_vpn.Base.{ℕ, ◌≡◌, Option, List, Text, subst}
use mazzy_vpn.Intent.{split_lines}
use mazzy_vpn.Protocols.{Protocol}
use mazzy_vpn.Profile.{Config}
use mazzy_vpn.Profile.Parse.{ok, parse}
use mazzy_vpn.Profile.Uapi.{written, to_uapi_with_mark}
use mazzy_vpn.Profile.Rendered.{settings, split_lines-to_uapi_with_mark}
use mazzy_vpn.Profile.Clean.{Gives, IsCleanConfig, parse-IsClean}

-- Whatever the text of a configuration holds that is parsed, what is then written for the engine is
-- read line by line as the settings of the configuration in their order and nothing else: no value
-- adds a line of its own.
pub to_uapi_with_mark-parse :
    (to_lower : Text → Text) (decode : Text → Option (List ℕ)) (t : Text) (c : Config)
    (proto : Protocol) (mark : ℕ) (out : Text)
    → parse to_lower t ≡ ok c
    → to_uapi_with_mark decode proto c mark ≡ written out
    → split_lines out ≡ settings decode proto c mark
to_uapi_with_mark-parse to_lower decode t c proto mark out p e =
    let clean = subst (Gives IsCleanConfig) p (parse-IsClean to_lower t) in
    split_lines-to_uapi_with_mark decode proto c mark out clean.0 clean.1 e
