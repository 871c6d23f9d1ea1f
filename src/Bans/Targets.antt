-- ===== src/Bans/Targets.antt =====
-- The addresses that no ban may reach (`ValidateTemporaryIPBanTarget` of internal/action/ip_ban.go), and the
-- address of the administrator (`policyAdminIP` of internal/store/security_events.go).
use witshield.Base.{
  String, Bool, false, not, ◌||◌, Option, none, some, List, [], ◌∷◌, if◌then◌else◌,
}
use witshield.Defense.Correlator.{Net, is_outside}

-- What is used of net/netip.
pub record Netip : Type 1 where
  pub Addr : Type 0
  pub parse_addr : String → Option Addr
  pub has_zone : Addr → Bool
  pub unmap : Addr → Addr
  pub is_global_unicast : Addr → Bool
  pub is_loopback : Addr → Bool
  pub is_private : Addr → Bool
  pub is_link_local_unicast : Addr → Bool
  pub is_link_local_multicast : Addr → Bool
  pub is_multicast : Addr → Bool
  pub is_unspecified : Addr → Bool
  -- the Contains method of the prefix that a text names
  pub prefix_contains : String → Addr → Bool

abbrev pub non_public_ban_targets : List String
non_public_ban_targets =
    "0.0.0.0/8" ∷ "100.64.0.0/10" ∷ "192.0.0.0/24" ∷ "192.0.2.0/24" ∷ "198.18.0.0/15"
    ∷ "198.51.100.0/24" ∷ "203.0.113.0/24" ∷ "240.0.0.0/4" ∷ "64:ff9b:1::/48" ∷ "100::/64"
    ∷ "2001:2::/48" ∷ "2001:db8::/32" ∷ []

module _ (a : Netip) where
  in_any : List String → a.Addr → Bool
  in_any [] address = false
  in_any (prefix ∷ rest) address = a.prefix_contains prefix address || in_any rest address

  is_local : a.Addr → Bool
  is_local address =
      not (a.is_global_unicast address)
      || (a.is_loopback address
          || (a.is_private address
              || (a.is_link_local_unicast address
                  || (a.is_link_local_multicast address
                      || (a.is_multicast address || a.is_unspecified address)))))

  validate_address : a.Addr → Option a.Addr
  unfolding is_local in_any
  validate_address address =
      if is_local address || in_any non_public_ban_targets address then none else some address

  -- `ValidateTemporaryIPBanTarget`
  unfoldable pub validate_temporary_ip_ban_target : String → Option a.Addr
  unfolding validate_address
  validate_temporary_ip_ban_target raw = elim (a.parse_addr raw) [
    | none ↦ none
    | some address ↦ if a.has_zone address then none else validate_address (a.unmap address)
  ]

module _ (n : Net) where
  base_ip : Option n.Network → String → String
  unfolding is_outside
  base_ip none otherwise = otherwise
  base_ip (some network) otherwise =
      if is_outside n (n.base network) then n.text (n.base network) else otherwise

  -- An entry that is an address of this host is read as a network too.
  entry_ip : Option n.Ip → String → String → String
  unfolding base_ip
  entry_ip none entry otherwise = base_ip (n.parse_cidr entry) otherwise
  entry_ip (some ip) entry otherwise =
      if is_outside n ip then n.text ip else base_ip (n.parse_cidr entry) otherwise

  -- `policyAdminIP`
  unfoldable pub policy_admin_ip : List String → String
  unfolding entry_ip
  policy_admin_ip [] = "127.0.0.1"
  policy_admin_ip (entry ∷ rest) =
      let otherwise = policy_admin_ip rest in entry_ip (n.parse_ip entry) entry otherwise
