-- ===== src/Server/Protect.antt =====
-- internal/server/protect.go: basic auth and the allowlist of sources in front of the tunnels.
-- net, net/http and crypto/sha256 are a parameter: an address and a network are of types of their
-- own, `is_v4` says whether To4 is not nil, and `split_host_port` is the host of net.SplitHostPort.
-- `Request.basic` is what r.BasicAuth finds.
pub mod Forwarded
use vlgr.Prelude.{
  ℕ, ◌-◌, Bool, true, false, not, ◌&&◌, ◌||◌, List, [], ◌∷◌, ◌++◌, Option, none, some, length,
  get_or, ltb, leb, ◌==◌, bytes_eq, if◌then◌else◌,
}
use vlgr.Prelude.Int.{ℤ, pos, negsuc}
use vlgr.Prelude.Outcome.{Outcome, ok, err}
use vlgr.Prelude.Text.{split, trim_space, before_byte, contains_byte}

pub record Net : Type 1 where
  pub Ip : Type 0
  pub IpNet : Type 0
  pub parse_ip : List ℕ → Option Ip
  pub is_v4 : Ip → Bool
  pub parse_cidr : List ℕ → Option IpNet
  pub contains : IpNet → Ip → Bool
  pub split_host_port : List ℕ → Option (List ℕ)
  pub sha256 : List ℕ → List ℕ

pub record Request : Type 0 where
  pub remote_addr : List ℕ
  pub forwarded_for : List (List ℕ)
  pub basic : Option (List ℕ × List ℕ)

pub data Error : Type 0 where
  negative_hops bad_basic_auth invalid_allowed_ip : Error

pub data Verdict : Type 0 where
  allowed forbidden unauthorized : Verdict

-- The part of `strings.Cut` after the separator.
unfoldable pub after_byte : ℕ → List ℕ → List ℕ
after_byte sep [] = []
after_byte sep (c ∷ cs) = let rest = after_byte sep cs in if c == sep then cs else rest

-- the trimmed parts of a list with commas, without the empty ones
unfoldable pub non_empty : List (List ℕ) → List (List ℕ)
unfolding trim_space bytes_eq
non_empty [] = []
non_empty (p ∷ ps) =
    let rest = non_empty ps in if bytes_eq (trim_space p) [] then rest else trim_space p ∷ rest

unfoldable pub parts : List ℕ → List (List ℕ)
unfolding non_empty split
parts s = non_empty (split b',' s)

unfoldable pub all_parts : List (List ℕ) → List (List ℕ)
unfolding parts
all_parts [] = []
all_parts (h ∷ hs) = parts h ++ all_parts hs

module _ (net : Net) where
  pub record Protector : Type 0 where
    pub user : List ℕ
    pub pass_hash : List ℕ
    pub allow_list : List net.IpNet
    pub trusted_hops : ℤ

  abbrev with_bits : List ℕ → Option net.Ip → List ℕ
  with_bits part none = part
  with_bits part (some ip) =
      part ++ b'/' ∷ (if net.is_v4 ip then b'3' ∷ b'2' ∷ [] else b'1' ∷ b'2' ∷ b'8' ∷ [])

  unfoldable pub parse_allowed : List (List ℕ) → Outcome Error (List net.IpNet)
  unfolding contains_byte
  parse_allowed [] = ok []
  parse_allowed (p ∷ ps) =
      let rest = parse_allowed ps in
      elim (net.parse_cidr (if contains_byte b'/' p then p else with_bits p (net.parse_ip p))) [
        | none ↦ err invalid_allowed_ip
        | some cidr ↦ elim rest [ err e ↦ err e | ok cidrs ↦ ok (cidr ∷ cidrs) ]
      ]

  -- The user and the hash of the password.
  unfoldable pub parse_basic : List ℕ → Outcome Error (List ℕ × List ℕ)
  unfolding before_byte after_byte contains_byte bytes_eq
  parse_basic [] = ok ([], [])
  parse_basic (c ∷ cs) =
      if not (contains_byte b':' (c ∷ cs)) || bytes_eq (before_byte b':' (c ∷ cs)) []
      then err bad_basic_auth
      else ok (before_byte b':' (c ∷ cs), net.sha256 (after_byte b':' (c ∷ cs)))

  unfoldable pub new_protector : List ℕ → List ℕ → ℤ → Outcome Error Protector
  unfolding parse_basic parse_allowed parts
  new_protector basic_auth allow_ips (negsuc n) = err negative_hops
  new_protector basic_auth allow_ips (pos n) = elim (parse_basic basic_auth) [
    | err e ↦ err e
    | ok (user, pass_hash) ↦ elim (parse_allowed (parts allow_ips)) [
      | err e ↦ err e
      | ok cidrs ↦
          ok (record {
            user = user;
            pass_hash = pass_hash;
            allow_list = cidrs;
            trusted_hops = pos n;
          })
    ]
  ]

  unfoldable pub remote_host : Request → List ℕ
  remote_host r = elim (net.split_host_port r.remote_addr) [ none ↦ r.remote_addr | some h ↦ h ]

  -- The entry at `len(xff) - n`, for n > 0; it is there if n is at most the length.
  unfoldable pub from_right : ℕ → List (List ℕ) → List ℕ → List ℕ
  from_right n xff fallback =
      if ltb (length xff) n then fallback else get_or xff (length xff - n) fallback

  unfoldable pub client_ip : Protector → Request → List ℕ
  unfolding remote_host from_right all_parts
  client_ip p r = elim p.trusted_hops [
    | negsuc n ↦ remote_host r
    | pos n ↦
        if n == 0 then remote_host r else from_right n (all_parts r.forwarded_for) (remote_host r)
  ]

  unfoldable pub any_contains : List net.IpNet → net.Ip → Bool
  any_contains [] ip = false
  any_contains (cidr ∷ cidrs) ip = net.contains cidr ip || any_contains cidrs ip

  unfoldable pub ip_allowed : Protector → Request → Bool
  unfolding client_ip any_contains
  ip_allowed p r = elim (net.parse_ip (client_ip p r)) [
    | none ↦ false
    | some ip ↦ any_contains p.allow_list ip
  ]

  unfoldable pub basic_auth_ok : Protector → Request → Bool
  unfolding bytes_eq
  basic_auth_ok p r = elim r.basic [
    | none ↦ false
    | some (user, pass) ↦ bytes_eq user p.user && bytes_eq (net.sha256 pass) p.pass_hash
  ]

  unfoldable pub enabled : Protector → Bool
  unfolding bytes_eq
  enabled p = not (bytes_eq p.user []) || ltb 0 (length p.allow_list)

  -- `none` is a nil *Protector.
  unfoldable pub allow : Option Protector → Request → Verdict
  unfolding enabled ip_allowed basic_auth_ok bytes_eq
  allow none r = allowed
  allow (some p) r =
      if not (enabled p)
      then allowed
      else if ltb 0 (length p.allow_list) && not (ip_allowed p r)
      then forbidden
      else if not (bytes_eq p.user []) && not (basic_auth_ok p r)
      then unauthorized
      else allowed
