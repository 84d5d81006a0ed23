-- ===== src/Provider/Ready.antt =====
-- When core/provider/provider.go calls a provider ready.
use mazzy_vpn.Base.{◌≡◌, ◌↔◌, true, not, ◌&&◌, ◌||◌, [], Text, ◌==◌, ==_iff, trim_space, arith}
use mazzy_vpn.Provider.{Provider, supports, ready, RegionInput, check_region, region_mismatches}

-- A provider is ready exactly if the egress country is known, is supported, and is the time zone's
-- and, where one is given, the target's.
pub check_region-ready :
    (to_upper : Text → Text) (p : Provider) (input : RegionInput)
    → let egress = to_upper (trim_space input.egress_country) in
      let tz = to_upper (trim_space input.timezone_country) in
      let target = to_upper (trim_space input.target_country) in
      ((check_region to_upper p input).verdict ≡ ready) ↔ (
        (not (egress == [])
          && supports to_upper p egress
          && egress == tz
          && (target == [] || (target == egress && supports to_upper p target)))
        ≡ true)
unfolding check_region region_mismatches
check_region-ready to_upper p input =
    let egress = to_upper (trim_space input.egress_country) in
    let tz = to_upper (trim_space input.timezone_country) in
    let target = to_upper (trim_space input.target_country) in
    ground (
      arith,
      ==_iff egress tz,
      ==_iff egress target,
      ==_iff target egress,
      ==_iff tz target,
      ==_iff egress [],
      ==_iff tz [],
      ==_iff target [],
    )
