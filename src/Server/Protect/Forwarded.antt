-- ===== src/Server/Protect/Forwarded.antt =====
-- The source address behind trusted proxies, and the guards as a whole.
use vlgr.Prelude.{
  ℕ, ◌+◌, ◌-◌, ◌≡◌, refl, sym, true, false, ◌&&◌, List, [], ◌∷◌, ◌++◌, none, some, arith, length,
  length-append, get_or, ltb, ◌==◌, bytes_eq, if◌then◌else◌,
}
use vlgr.Prelude.Int.{pos}
use vlgr.Prelude.Outcome.{ok}
use vlgr.Prelude.Text.{
  split, split-join, trim_space, trim_with, space_width, last_space_width, contains_byte,
  before_byte,
}
use vlgr.Server.Protect.{
  Net, Request, allowed, unauthorized, non_empty, parts, all_parts, after_byte, Protector,
  from_right, client_ip, basic_auth_ok, enabled, allow, parse_basic, new_protector, parse_allowed,
}

non_empty-append : (a b : List (List ℕ)) → non_empty (a ++ b) ≡ non_empty a ++ non_empty b
unfolding non_empty
non_empty-append [] b = refl
non_empty-append (p ∷ ps) b = ground (arith, non_empty-append ps b)

parts-join : (a b : List ℕ) → parts (a ++ b',' ∷ b) ≡ parts a ++ parts b
unfolding parts
parts-join a b = rw (split-join b',' a b) (non_empty-append (split b',' a) (split b',' b))

-- An address as a proxy writes it: no comma, no space around it, and not empty.
pub record IsClean (e : List ℕ) : Type 0 where
  pub no_comma : contains_byte b',' e ≡ false
  pub trimmed : trim_space e ≡ e
  pub not_empty : bytes_eq e [] ≡ false

split-clean : (e : List ℕ) → contains_byte b',' e ≡ false → split b',' e ≡ e ∷ []
unfolding split contains_byte
split-clean [] h = refl
split-clean (c ∷ cs) h = rw (split-clean cs (ground (arith, h))) (ground (arith, h))

trim_space-space : (e : List ℕ) → trim_space (32 ∷ e) ≡ trim_space e
unfolding trim_space trim_with space_width last_space_width
trim_space-space e = refl

parts-clean : (e : List ℕ) → IsClean e → parts (32 ∷ e) ≡ e ∷ []
unfolding parts non_empty contains_byte
parts-clean e h =
    rw (split-clean (32 ∷ e) (ground (arith, h.no_comma)))
      (rw (trim_space-space e, h.trimmed, h.not_empty) refl)

-- What a chain of proxies makes of a header: each puts ", " and the address it saw behind it.
abbrev pub appended : List ℕ → List (List ℕ) → List ℕ
appended header [] = header
appended header (e ∷ es) = appended (header ++ b',' ∷ 32 ∷ e) es

abbrev pub AllClean : List (List ℕ) → Type 0
AllClean [] = Unit {0}
AllClean (e ∷ es) = IsClean e × AllClean es

append_assoc : (a b c : List (List ℕ)) → (a ++ b) ++ c ≡ a ++ (b ++ c)
append_assoc [] b c = refl
append_assoc (x ∷ a) b c = rw (append_assoc a b c)

append_nil : (a : List (List ℕ)) → a ++ [] ≡ a
append_nil [] = refl
append_nil (x ∷ a) = rw (append_nil a)

parts-appended :
    (header : List ℕ) (es : List (List ℕ))
    → AllClean es
    → parts (appended header es) ≡ parts header ++ es
parts-appended header [] h = sym (append_nil (parts header))
parts-appended header (e ∷ es) h =
    rw
      (
        parts-appended (header ++ b',' ∷ 32 ∷ e) es h.1,
        parts-join header (32 ∷ e),
        parts-clean e h.0,
      )
      (append_assoc (parts header) (e ∷ []) es)

all_parts-append :
    (a : List (List ℕ)) (h : List ℕ) → all_parts (a ++ h ∷ []) ≡ all_parts a ++ parts h
unfolding all_parts
all_parts-append [] h = append_nil (parts h)
all_parts-append (x ∷ a) h =
    rw (all_parts-append a h) (sym (append_assoc (parts x) (all_parts a) (parts h)))

get_or-append : (a b : List (List ℕ)) (d : List ℕ) → get_or (a ++ b) (length a) d ≡ get_or b 0 d
get_or-append [] [] d = refl
get_or-append [] (x ∷ b) d = refl
get_or-append (x ∷ a) b d = get_or-append a b d

from_right-append :
    (net : Net) (a : List (List ℕ)) (e : List ℕ) (es : List (List ℕ)) (d : List ℕ)
    → from_right net (length (e ∷ es)) (a ++ e ∷ es) d ≡ e
unfolding from_right
from_right-append net a e es d =
    let n : length (a ++ e ∷ es) ≡ length a + length (e ∷ es) = length-append a (e ∷ es) in
    let short : ltb (length (a ++ e ∷ es)) (length (e ∷ es)) ≡ false = ground (arith, n) in
    let at : length (a ++ e ∷ es) - length (e ∷ es) ≡ length a = omega (arith, n) in
    rw (short, at, from_right) (get_or-append a (e ∷ es) d)

-- Behind as many proxies as are trusted, the address that is tested is the one that the outermost
-- of them saw, whatever X-Forwarded-For headers, and whatever text in the last of them, the request
-- came with.
pub client_ip-appended :
    (net : Net) (p : Protector net) (r : Request) (spoofed : List (List ℕ)) (header e : List ℕ)
    (es : List (List ℕ))
    → AllClean (e ∷ es)
    → p.trusted_hops ≡ pos (length (e ∷ es))
    → r.forwarded_for ≡ spoofed ++ appended header (e ∷ es) ∷ []
    → client_ip net p r ≡ e
unfolding client_ip from_right
client_ip-appended net p r spoofed header e es clean hops came =
    let all_eq : all_parts r.forwarded_for ≡ (all_parts spoofed ++ parts header) ++ e ∷ es =
      rw
        (
          came,
          all_parts-append spoofed (appended header (e ∷ es)),
          parts-appended header (e ∷ es) clean,
        )
        (sym (append_assoc (all_parts spoofed) (parts header) (e ∷ es))) in
    let nonzero : (length (e ∷ es) == 0) ≡ false = ground arith in
    rw (hops, all_eq, client_ip)
      (rw nonzero (from_right-append net (all_parts spoofed ++ parts header) e es _))

cut-join :
    (user pass : List ℕ)
    → contains_byte b':' user ≡ false
    → (before_byte b':' (user ++ b':' ∷ pass) ≡ user)
      × (after_byte b':' (user ++ b':' ∷ pass) ≡ pass)
      × (contains_byte b':' (user ++ b':' ∷ pass) ≡ true)
unfolding before_byte after_byte contains_byte
cut-join [] pass h = (refl, refl, refl)
cut-join (c ∷ cs) pass h =
    let (before, after, has) = cut-join cs pass (ground (arith, h)) in
    (ground (arith, h, before), ground (arith, h, after), ground (arith, h, has))

parse_basic-join :
    (net : Net) (user pass : List ℕ)
    → bytes_eq user [] ≡ false
    → contains_byte b':' user ≡ false
    → parse_basic net (user ++ b':' ∷ pass) ≡ ok (user, net.sha256 pass)
unfolding parse_basic
parse_basic-join net [] pass there h = absurd (cc there)
parse_basic-join net (c ∷ cs) pass there h =
    let (before, after, has) = cut-join (c ∷ cs) pass h in rw (before, after, has) refl

-- A protector that was made of "user:pass", with a user that has no colon, takes exactly the
-- requests whose credentials are that user and a password with the same hash; without an allowlist
-- it answers any other request with 401.
pub allow-new_protector :
    (net : Net) (user pass : List ℕ) (n : ℕ) (p : Protector net) (r : Request)
    → bytes_eq user [] ≡ false
    → contains_byte b':' user ≡ false
    → new_protector net (user ++ b':' ∷ pass) [] (pos n) ≡ ok p
    → allow net (some p) r ≡ (elim r.basic [
      | none ↦ unauthorized
      | some (u, w) ↦
          if bytes_eq u user && bytes_eq (net.sha256 w) (net.sha256 pass)
          then allowed
          else unauthorized
    ])
unfolding new_protector parse_allowed parts non_empty split allow enabled basic_auth_ok
allow-new_protector net user pass n p r there clean made =
    let basic = parse_basic-join net user pass there clean in
    let user_eq : p.user ≡ user = ground (arith, made, basic) in
    let hash_eq : p.pass_hash ≡ net.sha256 pass = ground (arith, made, basic) in
    let list_eq : p.allow_list ≡ [] = ground (arith, made, basic) in
    ground (arith, user_eq, hash_eq, list_eq, there)
