-- ===== src/Net.antt =====
-- What the program takes from Go's package `net`: addresses and masks are slices of bytes, empty
-- where Go has nil, and each function of the package that is called is a field of `Net`.
use netforge.Prelude.{ℕ, String, Bool, true, false, Option, none, some, List, [], ◌∷◌}

-- net.IPNet
pub record IpNet : Type 0 where
  pub ip : List ℕ
  pub mask : List ℕ

pub record Net : Type 0 where
  -- net.ParseIP, [] for nil
  pub parse_ip : String → List ℕ
  -- net.ParseCIDR, none for an error; the network that it returns
  pub parse_cidr : String → Option IpNet
  -- (*IPNet).Contains
  pub contains : IpNet → List ℕ → Bool
  -- IP.To4, [] for nil
  pub to4 : List ℕ → List ℕ
  -- IP.Mask, [] for nil
  pub mask_ip : List ℕ → List ℕ → List ℕ
  -- IP.Equal
  pub equal : List ℕ → List ℕ → Bool
  -- IP.String
  pub ip_string : List ℕ → String
  -- (*IPNet).String
  pub net_string : IpNet → String
  -- the ones of IPMask.Size
  pub mask_ones : List ℕ → ℕ

-- `ip == nil`
abbrev pub is_nil : List ℕ → Bool
is_nil [] = true
is_nil (_ ∷ _) = false

-- Contains, where the parse before it may have failed.
abbrev pub net_contains : Net → Option IpNet → List ℕ → Bool
net_contains net none ip_addr = false
net_contains net (some ip_net) ip_addr = net.contains ip_net ip_addr
