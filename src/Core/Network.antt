-- ===== src/Core/Network.antt =====
-- platform/controller-core/src/networkConfig.js: IPv6 addresses, suffixes and prefixes, and the MAC
-- addresses that EUI-64 suffixes stand for. A text is the list of its UTF-16 units; lower case is
-- that of ASCII, since what other letters become is refused as they are. All the errors are plain
-- ones.
pub mod Hex
pub mod Text
pub mod Suffix
pub mod Laws
pub mod Mac
use web_action_recorder_exte.Common.{
  ℕ, zero, suc, Bool, true, false, not, ◌&&◌, ◌||◌, ◌==◌, ltb, leb, ◌+◌, ◌-◌, ◌*◌, ◌/◌, ◌%◌, List,
  [], ◌∷◌, ◌++◌, map, length, take, drop, replicate, any, all, is_empty, if◌then◌else◌, is_space,
  elem, Option, none, some, get_or_else,
}
use web_action_recorder_exte.Json.Pattern.{to_lower}
use web_action_recorder_exte.Core.Errors.{Result, ok, err, domain_error, plain_error, ◌>>=◌}

abbrev pub Units : Type 0
Units = List ℕ

abbrev pub colon : ℕ
colon = 58

abbrev pub fail {ℓ} : {A : Type ℓ} → Result A
fail = err (domain_error plain_error)

abbrev pub trim_front : Units → Units
trim_front [] = []
trim_front (c ∷ s) = if is_space c then trim_front s else c ∷ s

abbrev pub trim_back : Units → Units
trim_back [] = []
trim_back (c ∷ s) = let rest = trim_back s in if is_space c && is_empty rest then [] else c ∷ rest

-- `.trim().toLowerCase()`
abbrev pub normal_text : Units → Units
normal_text s = map to_lower (trim_back (trim_front s))

abbrev pub prepend : ℕ → List Units → List Units
prepend c [] = (c ∷ []) ∷ []
prepend c (part ∷ parts) = (c ∷ part) ∷ parts

-- `split` at a unit.
unfoldable pub split : ℕ → Units → List Units
split sep [] = [] ∷ []
split sep (c ∷ s) = let rest = split sep s in if c == sep then [] ∷ rest else prepend c rest

abbrev pub starts : ℕ → Units → Bool
starts c [] = false
starts c (d ∷ s) = d == c

-- `split('::')`: the Boolean says that the unit is the second of two that were found.
unfoldable pub split_double : Bool → Units → List Units
split_double second [] = [] ∷ []
split_double second (c ∷ s) =
    let hit = not second && c == colon && starts colon s in
    let rest = split_double hit s in
    if second then rest else if hit then [] ∷ rest else prepend c rest

abbrev pub hex_value : ℕ → ℕ
hex_value c = if ltb c 58 then c - 48 else c - 87

-- A digit of a text in lower case.
abbrev pub is_hex : ℕ → Bool
is_hex c = (leb 48 c && leb c 57) || (leb 97 c && leb c 102)

abbrev pub hex_digit : ℕ → ℕ
hex_digit n = if ltb n 10 then 48 + n else 87 + n

-- IPV6_GROUP
abbrev pub is_group : Units → Bool
is_group part = not (is_empty part) && leb (length part) 4 && all is_hex part

abbrev pub parse_digits : ℕ → Units → ℕ
parse_digits acc [] = acc
parse_digits acc (c ∷ s) = parse_digits (acc * 16 + hex_value c) s

-- `parseGroup`
unfoldable pub parse_group : Units → ℕ
parse_group part = parse_digits 0 part

-- `group.toString(16)`, of a number below 65536.
unfoldable pub to_hex : ℕ → Units
to_hex n =
    if ltb n 16
    then hex_digit n ∷ []
    else if ltb n 256
    then hex_digit (n / 16) ∷ hex_digit (n % 16) ∷ []
    else if ltb n 4096
    then hex_digit (n / 256) ∷ hex_digit (n / 16 % 16) ∷ hex_digit (n % 16) ∷ []
    else hex_digit (n / 4096)
      ∷ hex_digit (n / 256 % 16)
      ∷ hex_digit (n / 16 % 16)
      ∷ hex_digit (n % 16)
      ∷ []

-- `byte.toString(16).padStart(2, '0')`
abbrev pub to_hex2 : ℕ → Units
to_hex2 n = hex_digit (n / 16) ∷ hex_digit (n % 16) ∷ []

-- `join(':')`
unfoldable pub join : List Units → Units
join [] = []
join (part ∷ []) = part
join (part ∷ other ∷ parts) = part ++ colon ∷ join (other ∷ parts)

-- `splitGroups`
abbrev pub check_groups : List Units → Result (List ℕ)
check_groups parts = if all is_group parts then ok (map parse_group parts) else fail

unfoldable pub split_groups : Units → Result (List ℕ)
split_groups [] = ok []
split_groups (c ∷ s) = check_groups (split colon (c ∷ s))

abbrev pub fill : Bool → List ℕ → List ℕ → Result (List ℕ)
fill short front back =
    let omitted = 8 - (length front + length back) in
    if ltb 8 (length front + length back)
    then fail
    else if not short && not (omitted == 0)
    then fail
    else if short && omitted == 0
    then fail
    else ok (front ++ replicate omitted 0 ++ back)

abbrev pub parse_halves : List Units → Result (List ℕ)
parse_halves (whole ∷ []) = split_groups whole >>= λ front. fill false front []
parse_halves (front ∷ back ∷ []) =
    split_groups front >>= λ x. split_groups back >>= λ y. fill true x y
parse_halves _ = fail

abbrev pub first_part : List Units → Units
first_part [] = []
first_part (part ∷ parts) = part

-- `parseIpv6Address`
unfoldable pub parse_ipv6_address : Units → Result (List ℕ)
parse_ipv6_address value =
    let text = first_part (split 37 (normal_text value)) in
    if is_empty text || not (all (λ c. is_hex c || c == colon) text)
    then fail
    else parse_halves (split_double false text)

abbrev pub print_groups : List ℕ → Units
print_groups groups = join (map to_hex groups)

abbrev pub all_zero : List ℕ → Bool
all_zero groups = all (λ g. g == 0) groups

-- `::1`
abbrev pub is_gateway : List ℕ → Bool
is_gateway (a ∷ b ∷ c ∷ d ∷ []) = a == 0 && b == 0 && c == 0 && d == 1
is_gateway _ = false

abbrev pub last_64 : List ℕ → Result (List ℕ)
last_64 address = if all_zero (take 4 address) then ok (drop 4 address) else fail

abbrev pub suffix_groups : Units → Result (List ℕ)
suffix_groups text =
    let parts = split colon text in
    if ltb 1 (length (split_double false text)) || ltb 4 (length parts)
    then parse_ipv6_address text >>= last_64
    else if all is_group parts
    then ok (replicate (4 - length parts) 0 ++ map parse_group parts)
    else fail

abbrev pub check_suffix : List ℕ → Result Units
check_suffix groups =
    if all_zero groups || is_gateway groups then fail else ok (print_groups groups)

-- `normalizeIpv6Suffix`
unfoldable pub normalize_ipv6_suffix : Units → Result Units
normalize_ipv6_suffix value =
    let text = normal_text value in
    if is_empty text then fail else suffix_groups text >>= check_suffix

abbrev pub is_eui64 : List ℕ → Bool
is_eui64 (a ∷ b ∷ c ∷ d ∷ []) = b % 256 == 255 && c / 256 == 254
is_eui64 _ = false

abbrev pub check_eui64 : Units → Result Units
check_eui64 suffix = if is_eui64 (map parse_group (split colon suffix)) then ok suffix else fail

-- `normalizeIpv6Eui64Suffix`
unfoldable pub normalize_ipv6_eui64_suffix : Units → Result Units
normalize_ipv6_eui64_suffix value = normalize_ipv6_suffix value >>= check_eui64

-- `byte ^ 0x02`
abbrev pub flip_local : ℕ → ℕ
flip_local b = if b / 2 % 2 == 0 then b + 2 else b - 2

abbrev pub mac_text : List ℕ → Units
mac_text (a ∷ b ∷ c ∷ d ∷ []) =
    join (map to_hex2 (flip_local (a / 256) ∷ a % 256 ∷ b / 256 ∷ c % 256 ∷ d / 256 ∷ d % 256 ∷ []))
mac_text _ = []

-- `macAddressFromIpv6Eui64Suffix`
unfoldable pub mac_address_from_ipv6_eui64_suffix : Units → Result Units
mac_address_from_ipv6_eui64_suffix value = normalize_ipv6_eui64_suffix value >>= λ suffix.
    ok (mac_text (map parse_group (split colon suffix)))

abbrev pub is_byte : Units → Bool
is_byte part = length part == 2 && all is_hex part

abbrev pub suffix_of_bytes : List ℕ → Units
suffix_of_bytes (a ∷ b ∷ c ∷ d ∷ e ∷ f ∷ []) =
    print_groups ((flip_local a * 256 + b) ∷ (c * 256 + 255) ∷ (254 * 256 + d) ∷ (e * 256 + f) ∷ [])
suffix_of_bytes _ = []

-- `ipv6Eui64SuffixFromMacAddress`
unfoldable pub ipv6_eui64_suffix_from_mac_address : Units → Result Units
ipv6_eui64_suffix_from_mac_address value =
    let parts = split colon (normal_text value) in
    if length parts == 6 && all is_byte parts
    then ok (suffix_of_bytes (map parse_group parts))
    else fail

abbrev pub print_prefix : List ℕ → Units
print_prefix groups = print_groups (take 4 groups) ++ colon ∷ colon ∷ 47 ∷ 54 ∷ 52 ∷ []

-- `ipv6PrefixFromAddress`
unfoldable pub ipv6_prefix_from_address : Units → ℕ → Result Units
ipv6_prefix_from_address address prefix_length =
    if not (prefix_length == 64)
    then fail
    else parse_ipv6_address address >>= λ groups. ok (print_prefix groups)

abbrev pub is_64 : Units → Bool
is_64 (a ∷ b ∷ []) = a == 54 && b == 52
is_64 _ = false

abbrev pub prefix_parts : List Units → Result Units
prefix_parts (address ∷ prefix_length ∷ []) =
    if is_64 prefix_length then ipv6_prefix_from_address address 64 else fail
prefix_parts _ = fail

-- `normalizeIpv6Prefix`
unfoldable pub normalize_ipv6_prefix : Units → Result Units
normalize_ipv6_prefix value = prefix_parts (split 47 (normal_text value))

-- `composeIpv6Address`
unfoldable pub compose_ipv6_address : Units → Units → Result Units
compose_ipv6_address prefix suffix = normalize_ipv6_prefix prefix >>= λ text.
    parse_ipv6_address (first_part (split 47 text)) >>= λ address.
    normalize_ipv6_suffix suffix >>= λ low.
    ok (print_groups (take 4 address ++ map parse_group (split colon low)))

-- `normalizeIpv6Address`
unfoldable pub normalize_ipv6_address : Units → Result Units
normalize_ipv6_address value = parse_ipv6_address value >>= λ groups. ok (print_groups groups)

pub record ManagedNetwork : Type 0 where
  pub ipv4_enabled : Bool
  pub ipv6_enabled : Bool
  pub ipv6_suffix : Option Units

abbrev pub network : Bool → Bool → Option Units → ManagedNetwork
network v4 v6 suffix = record { ipv4_enabled = v4; ipv6_enabled = v6; ipv6_suffix = suffix }

-- `normalizeManagedNetwork`: IPv4 is on unless it is `false`, IPv6 is on when it is `true`.
unfoldable pub normalize_managed_network : Option Bool → Option Bool → Units → Result ManagedNetwork
normalize_managed_network ipv4 ipv6 suffix =
    let v4 = get_or_else ipv4 true in
    let v6 = get_or_else ipv6 false in
    if not v4 && not v6
    then fail
    else if v6
    then (normalize_ipv6_suffix suffix >>= λ s. ok (network v4 v6 (some s)))
    else ok (network v4 v6 none)
