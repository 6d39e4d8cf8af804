-- ===== src/Server/Subdomain/Hosts.antt =====
-- Which hosts lead to a tunnel.
use vlgr.Prelude.{
  ℕ, ◌-◌, ◌≡◌, ◌≢◌, refl, sym, true, false, not, ◌||◌, List, [], ◌∷◌, ◌++◌, arith, length, take,
  drop, take-append-drop, bytes_eq, bytes_eq_iff, Bool-cases, inl, inr,
}
use vlgr.Prelude.Text.{before_byte, contains_byte, has_suffix, trim_suffix}
use vlgr.Server.Subdomain.{valid_subdomain, extract_subdomain}

trim_suffix-append :
    (s suffix : List ℕ) → has_suffix s suffix ≡ true → trim_suffix s suffix ++ suffix ≡ s
unfolding trim_suffix has_suffix
trim_suffix-append s suffix h =
    let k = length s - length suffix in
    let rest : drop k s ≡ suffix = (bytes_eq_iff (drop k s) suffix).0 (ground (arith, h)) in
    let split_ : take k s ++ suffix ≡ s = rw rest at (take-append-drop k s) in rw h split_

-- What the name of a tunnel satisfies: the host is that name before the base domain, both up to a
-- port, and it is one label of allowed characters.
pub record Names (host base name : List ℕ) : Type 0 where
  pub host_eq : before_byte b':' host ≡ name ++ b'.' ∷ before_byte b':' base
  pub one_label : contains_byte b'.' name ≡ false
  pub allowed : valid_subdomain name ≡ true

-- A host that extractSubdomain takes to a name is that name, a dot and the base domain, ports aside,
-- and the name is one valid label.
pub extract_subdomain-Names :
    (host base : List ℕ)
    → extract_subdomain host base ≢ []
    → Names host base (extract_subdomain host base)
unfolding extract_subdomain
extract_subdomain-Names host base h =
    let h0 = before_byte b':' host in
    let suffix = b'.' ∷ before_byte b':' base in
    elim (Bool-cases (bytes_eq h0 (before_byte b':' base) || not (has_suffix h0 suffix))) [
      | inl e ↦ absurd (h (rw e refl))
      | inr e ↦
          elim (Bool-cases
            (bytes_eq (trim_suffix h0 suffix) [] || contains_byte b'.' (trim_suffix h0 suffix))) [
              | inl f ↦ absurd (h (rw (e, f) refl))
              | inr f ↦ elim (Bool-cases (valid_subdomain (trim_suffix h0 suffix))) [
                | inr g ↦ absurd (h (rw (e, f, g) refl))
                | inl g ↦
                    rw (e, f, g)
                      (record {
                        host_eq = sym (trim_suffix-append h0 suffix (ground (arith, e)));
                        one_label = ground (arith, f);
                        allowed = g;
                      })
              ]
            ]
    ]
