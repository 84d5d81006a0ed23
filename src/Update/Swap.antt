-- ===== src/Update/Swap.antt =====
-- What a swap of the binary leaves (mazzy-vpn-cli/cmd/mazzy-vpn/update.go).
use mazzy_vpn.Base.{◌≡◌, ◌⊎◌, true, false, none, some, Text, arith, is_some}
use mazzy_vpn.Update.{Files, Calls, copy_file, replace_binary}

-- With a binary in place: without an error the new one stands there. With an error it is the old one, but
-- in two cases: the old one could not be set aside, so that the copy went straight onto it and left a
-- torn one, or the new one unclosed; or it was set aside and could not be put back.
pub replace_binary-leaves :
    (c : Calls) (old new : Text) (f : Files)
    → f.target ≡ some old
    → let r = replace_binary c new f in
      ((r.1 ≡ none) × (r.0.target ≡ some new))
      ⊎ ((is_some r.1 ≡ true) × (r.0.target ≡ some old))
      ⊎ ((is_some r.1 ≡ true)
          × (c.rename ≡ false)
          × ((r.0.target ≡ some c.torn) ⊎ (r.0.target ≡ some new)))
      ⊎ ((is_some r.1 ≡ true) × (c.rename ≡ true) × (c.roll_back ≡ false))
unfolding replace_binary copy_file
replace_binary-leaves c old new f e = ground arith
