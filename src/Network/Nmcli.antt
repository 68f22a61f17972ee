-- ===== src/Network/Nmcli.antt =====
-- internal/netconfig/netconfig.go: the controller behind the service, which reads and changes the
-- network by the commands of nmcli. The program nmcli is a parameter: its queries answer with a text
-- and change nothing, its other commands change the network or fail.
pub mod Rollback
use nx_iio_t_gateway_max_gat.Shared.{
  ℕ, zero, suc, ◌+◌, ◌-◌, ◌*◌, ◌/◌, ◌%◌, Bool, true, false, not, ◌&&◌, ◌||◌, List, [], ◌∷◌, ◌++◌,
  Option, none, some, ltb, leb, ◌==◌, if◌then◌else◌, is_neg64, lt64, wrap64, two63, two64,
  trim_space, after_prefix,
}
use nx_iio_t_gateway_max_gat.Queue.Codec.Names.{bytes_of, same_bytes}
use nx_iio_t_gateway_max_gat.Network.{StaticConfig, Info, Controller}

abbrev Text : Type 0
Text = List ℕ

-- `none` is an error.
pub record NetworkManager : Type 1 where
  pub N : Type 0
  pub available : Bool
  pub query : List Text → N → Option Text
  pub command : List Text → N → N × Bool

-- strings.Split at one character, in the first part and the rest.
unfoldable pub split_at : ℕ → Text → Text × List Text
split_at sep [] = ([], [])
split_at sep (c ∷ cs) =
    let rest = split_at sep cs in if c == sep then ([], rest.0 ∷ rest.1) else (c ∷ rest.0, rest.1)

unfoldable pub split : ℕ → Text → List Text
unfolding split_at
split sep s = let parts = split_at sep s in parts.0 ∷ parts.1

-- strings.Cut at one character.
unfoldable pub cut : ℕ → Text → Option (Text × Text)
cut sep [] = none
cut sep (c ∷ cs) =
    let rest = cut sep cs in
    if c == sep
    then some ([], cs)
    else elim rest [ none ↦ none | some (before, after) ↦ some (c ∷ before, after) ]

abbrev colon : ℕ
colon = 58

abbrev newline : ℕ
newline = 10

abbrev starts : Text → Text → Bool
starts p s = elim (after_prefix p s) [ none ↦ false | some rest ↦ true ]

-- The first connected device of a wired or wireless type.
unfoldable pub first_connected : List Text → Option Text
unfolding split
first_connected [] = none
first_connected (line ∷ lines) =
    let rest = first_connected lines in
    elim (split colon line) [
      | device ∷ type ∷ state ∷ more ↦
          if same_bytes state (bytes_of "connected")
            && (same_bytes type (bytes_of "ethernet") || same_bytes type (bytes_of "wifi"))
          then some device
          else rest
      | _ ↦ rest
    ]

-- The profile that the lines name first: an error where it is empty or a dash.
unfoldable pub profile_in : List Text → Option Text
unfolding cut
profile_in [] = none
profile_in (line ∷ lines) =
    let rest = profile_in lines in
    elim (cut colon line) [
      | none ↦ rest
      | some (key, val) ↦
          if not (same_bytes key (bytes_of "GENERAL.CONNECTION"))
          then rest
          else let name = trim_space val in
            if same_bytes name [] || same_bytes name (bytes_of "--") then none else some name
    ]

-- strconv.Atoi: the number that it returns, which is 0 beside a syntax error.
digits : ℕ → Text → Option ℕ
digits n [] = some n
digits n (c ∷ cs) = if leb 48 c && leb c 57 then digits (n * 10 + (c - 48)) cs else none

magnitude : Text → ℕ
unfolding digits
magnitude [] = 0
magnitude (c ∷ cs) = elim (digits 0 (c ∷ cs)) [ none ↦ 0 | some n ↦ n ]

unfoldable pub atoi : Text → ℕ
unfolding magnitude
atoi [] = 0
atoi (c ∷ cs) =
    if c == 45
    then wrap64 (two64 - (if ltb two63 (magnitude cs) then two63 else magnitude cs))
    else let n = magnitude (if c == 43 then cs else c ∷ cs) in if ltb n two63 then n else two63 - 1

-- What `Current` gathers, with the name of the profile.
pub record Found : Type 0 where
  pub addresses : StaticConfig
  pub profile : Text

abbrev address_of : Text → Text
address_of val = elim (cut 47 val) [ none ↦ val | some (before, after) ↦ before ]

abbrev prefix_of : Text → Text
prefix_of val = elim (cut 47 val) [ none ↦ [] | some (before, after) ↦ after ]

unfoldable pub read_field : Text → Text → Found → Found
unfolding cut atoi
read_field key val f =
    if same_bytes key (bytes_of "GENERAL.CONNECTION")
    then record f { profile = val }
    else if same_bytes key (bytes_of "IP4.ADDRESS[1]")
    then record f {
      addresses = record f.addresses { address = address_of val; prefix = atoi (prefix_of val) };
    }
    else if same_bytes key (bytes_of "IP4.GATEWAY")
    then record f { addresses = record f.addresses { gateway = val } }
    else if starts (bytes_of "IP4.DNS[") key && not (same_bytes val [])
    then record f { addresses = record f.addresses { dns = f.addresses.dns ++ val ∷ [] } }
    else f

unfoldable pub read_fields : List Text → Found → Found
unfolding read_field
read_fields [] f = f
read_fields (line ∷ lines) f = elim (cut colon line) [
  | none ↦ read_fields lines f
  | some (key, val) ↦ read_fields lines (read_field key val f)
]

-- The last line with the method counts.
unfoldable pub method_in : Text → List Text → Text
unfolding cut
method_in method [] = method
method_in method (line ∷ lines) = elim (cut colon line) [
  | none ↦ method_in method lines
  | some (key, val) ↦
      if same_bytes key (bytes_of "ipv4.method")
      then method_in (trim_space val) lines
      else method_in method lines
]

-- StaticConfig.validate.
unfoldable pub is_valid : StaticConfig → Bool
is_valid cfg =
    not (same_bytes cfg.interface [])
    && (not (same_bytes cfg.address [])
        && (not (same_bytes cfg.gateway [])
            && not ((cfg.prefix == 0 || is_neg64 cfg.prefix) || lt64 32 cfg.prefix)))

-- %d of a number that has passed `validate`: one digit or two.
abbrev decimal : ℕ → Text
decimal n = if ltb n 10 then (48 + n) ∷ [] else (48 + n / 10) ∷ (48 + n % 10) ∷ []

-- strings.Join with a comma.
unfoldable pub join : List Text → Text
join [] = []
join (t ∷ []) = t
join (t ∷ (u ∷ us)) = t ++ 44 ∷ join (u ∷ us)

abbrev dns_args : List Text → List Text
dns_args [] = []
dns_args (d ∷ ds) = bytes_of "ipv4.dns" ∷ join (d ∷ ds) ∷ []

unfoldable pub static_args : Text → StaticConfig → List Text
unfolding join
static_args conn cfg =
    bytes_of "con"
    ∷ bytes_of "mod"
    ∷ conn
    ∷ bytes_of "ipv4.addresses"
    ∷ (cfg.address ++ 47 ∷ decimal cfg.prefix)
    ∷ bytes_of "ipv4.gateway"
    ∷ cfg.gateway
    ∷ bytes_of "ipv4.method"
    ∷ bytes_of "manual"
    ∷ dns_args cfg.dns

abbrev up_args : Text → List Text
up_args conn = bytes_of "con" ∷ bytes_of "up" ∷ conn ∷ []

abbrev show_args : Text → Text → List Text
show_args fields iface =
    bytes_of "-t" ∷ bytes_of "-f" ∷ fields ∷ bytes_of "device" ∷ bytes_of "show" ∷ iface ∷ []

module _ (nm : NetworkManager) where
  unfoldable pub primary_interface : nm.N → Option Text
  unfolding first_connected
  primary_interface n =
      elim (nm.query
        (bytes_of "-t"
          ∷ bytes_of "-f"
          ∷ bytes_of "DEVICE,TYPE,STATE"
          ∷ bytes_of "device"
          ∷ bytes_of "status"
          ∷ [])
        n) [ none ↦ none | some out ↦ first_connected (split newline out) ]

  unfoldable pub connection_for : Text → nm.N → Option Text
  unfolding profile_in split
  connection_for iface n = elim (nm.query (show_args (bytes_of "GENERAL.CONNECTION") iface) n) [
    | none ↦ none
    | some out ↦ profile_in (split newline out)
  ]

  unfoldable pub method_of : Text → nm.N → Text
  unfolding method_in split
  method_of profile n =
      if same_bytes profile [] || same_bytes profile (bytes_of "--")
      then []
      else elim (nm.query
          (bytes_of "-t"
            ∷ bytes_of "-f"
            ∷ bytes_of "ipv4.method"
            ∷ bytes_of "connection"
            ∷ bytes_of "show"
            ∷ profile
            ∷ [])
          n) [ none ↦ [] | some out ↦ method_in [] (split newline out) ]

  unfoldable pub current : nm.N → Option Info
  unfolding primary_interface read_fields split method_of
  current n = if not nm.available then none else elim (primary_interface n) [
    | none ↦ none
    | some iface ↦
        elim (nm.query
          (show_args (bytes_of "GENERAL.CONNECTION,IP4.ADDRESS,IP4.GATEWAY,IP4.DNS") iface) n) [
            | none ↦ none
            | some out ↦
                let blank : StaticConfig = record {
                  interface = iface;
                  address = [];
                  prefix = 0;
                  gateway = [];
                  dns = [];
                } in
                let f =
                  read_fields (split newline out) (record { addresses = blank; profile = [] }) in
                some (record {
                  is_manual = same_bytes (method_of f.profile n) (bytes_of "manual");
                  addresses = f.addresses;
                })
          ]
  ]

  -- The change of the profile, and taking it up.
  unfoldable pub modify : List Text → Text → nm.N → nm.N × Bool
  modify args conn n =
      let changed = nm.command args n in
      if changed.1 then nm.command (up_args conn) changed.0 else (changed.0, false)

  unfoldable pub apply_static : StaticConfig → nm.N → nm.N × Bool
  unfolding is_valid connection_for static_args modify
  apply_static cfg n =
      if not nm.available
      then (n, false)
      else if not (is_valid cfg)
      then (n, false)
      else elim (connection_for cfg.interface n) [
        | none ↦ (n, false)
        | some conn ↦ modify (static_args conn cfg) conn n
      ]

  unfoldable pub apply_dhcp : Text → nm.N → nm.N × Bool
  unfolding connection_for modify
  apply_dhcp iface n =
      if not nm.available
      then (n, false)
      else if same_bytes iface []
      then (n, false)
      else elim (connection_for iface n) [
        | none ↦ (n, false)
        | some conn ↦
            modify
              (bytes_of "con"
                ∷ bytes_of "mod"
                ∷ conn
                ∷ bytes_of "ipv4.method"
                ∷ bytes_of "auto"
                ∷ [])
              conn n
      ]

  -- The controller that the service takes.
  abbrev pub nmcli : Controller
  nmcli = record {
    C = nm.N;
    current = current;
    apply_static = apply_static;
    apply_dhcp = apply_dhcp;
  }
