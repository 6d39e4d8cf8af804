-- ===== src/Server/Proxy/Splitting.antt =====
-- The bytes of the headers that the proxy copies.
use vlgr.Prelude.{ℕ, ◌≡◌, refl, Bool, true, false, List, [], ◌∷◌, arith, all, if◌then◌else◌}
use vlgr.Prelude.Text.{contains_byte}
use vlgr.Protocol.{Headers}
use vlgr.Server.Proxy.{
  is_name_byte, valid_header_name, valid_header_value, copy_values, copy_valid_headers,
}

-- The two ends of a line, and the byte 0, are not in the text.
pub record IsOneLine (s : List ℕ) : Type 0 where
  pub no_return : contains_byte 13 s ≡ false
  pub no_newline : contains_byte 10 s ≡ false
  pub no_zero : contains_byte 0 s ≡ false

valid_header_value-IsOneLine : (s : List ℕ) → valid_header_value s ≡ true → IsOneLine s
unfolding valid_header_value contains_byte
valid_header_value-IsOneLine [] h = record { no_return = refl; no_newline = refl; no_zero = refl }
valid_header_value-IsOneLine (c ∷ s) h =
    let rest = valid_header_value-IsOneLine s (ground (arith, h)) in
    record {
      no_return = ground (arith, h, rest.no_return);
      no_newline = ground (arith, h, rest.no_newline);
      no_zero = ground (arith, h, rest.no_zero);
    }

all-IsOneLine : (s : List ℕ) → all is_name_byte s ≡ true → IsOneLine s
unfolding is_name_byte contains_byte
all-IsOneLine [] h = record { no_return = refl; no_newline = refl; no_zero = refl }
all-IsOneLine (c ∷ s) h =
    let rest = all-IsOneLine s (ground (arith, h)) in
    record {
      no_return = ground (arith, h, rest.no_return);
      no_newline = ground (arith, h, rest.no_newline);
      no_zero = ground (arith, h, rest.no_zero);
    }

valid_header_name-IsOneLine : (s : List ℕ) → valid_header_name s ≡ true → IsOneLine s
unfolding valid_header_name
valid_header_name-IsOneLine [] h = absurd (cc h)
valid_header_name-IsOneLine (c ∷ s) h = all-IsOneLine (c ∷ s) h

module _ {S : Type 0} (P : S → Type 0) (add : S → List ℕ → List ℕ → S)
    (keep : (w : S) (k v : List ℕ) → IsOneLine k → IsOneLine v → P w → P (add w k v)) where
  if-P : (b : Bool) (x y : S) → (b ≡ true → P x) → P y → P (if b then x else y)
  if-P true x y px py = px refl
  if-P false x y px py = py

  copy_values-P :
      (vs : List (List ℕ)) (k : List ℕ) (w : S) → IsOneLine k → P w → P (copy_values add w k vs)
  unfolding copy_values
  copy_values-P [] k w line p = p
  copy_values-P (v ∷ vs) k w line p =
      copy_values-P vs k (if valid_header_value v then add w k v else w) line (
        if-P (valid_header_value v) _ _ (λ e. keep w k v line (valid_header_value-IsOneLine v e) p)
          p)

  -- Whatever headers a client sends, what the proxy writes of them keeps every property that holds
  -- before and that adding a name and a value without CR, LF or NUL keeps.
  pub copy_valid_headers-IsOneLine :
      (headers : Headers) (w : S) → P w → P (copy_valid_headers add w headers)
  unfolding copy_valid_headers
  copy_valid_headers-IsOneLine [] w p = p
  copy_valid_headers-IsOneLine ((k, vs) ∷ headers) w p =
      copy_valid_headers-IsOneLine headers
        (if valid_header_name k then copy_values add w k vs else w)
        (if-P (valid_header_name k) _ _
          (λ e. copy_values-P vs k w (valid_header_name-IsOneLine k e) p) p)
