-- ===== src/Tests/Network.antt =====
-- An instance of the theorem on platform/controller-core/src/networkConfig.js, at one suffix.
use web_action_recorder_exte.Common.{◌≡◌, refl}
use web_action_recorder_exte.Json.Pattern.{codes}
use web_action_recorder_exte.Core.Errors.{ok}
use web_action_recorder_exte.Core.Network.{
  Units, normalize_ipv6_suffix, normalize_ipv6_eui64_suffix, split, split_double, parse_group,
  to_hex, join, parse_ipv6_address, split_groups,
}
use web_action_recorder_exte.Core.Network.Mac.{BothWays, mac_address-eui64_suffix}

abbrev written : Units
written = codes " ::02A:56FF:fe78:9abc"

abbrev normal : Units
normal = codes "2a:56ff:fe78:9abc"

accepted : normalize_ipv6_eui64_suffix written ≡ ok normal
unfolding normalize_ipv6_eui64_suffix normalize_ipv6_suffix split split_double parse_group to_hex
    join parse_ipv6_address split_groups
accepted = refl

mac_address-eui64_suffix_example : BothWays written normal
mac_address-eui64_suffix_example = mac_address-eui64_suffix written normal accepted
