-- ===== src/Server/Sni/NoPanic.antt =====
-- The slices and indices of the parser, which reads attacker-controlled bytes.
use vlgr.Prelude.{
  ℕ, zero, suc, ◌≤◌, ◌≢◌, refl, List, [], ◌∷◌, arith, length, take, drop, length-drop,
}
use vlgr.Prelude.Bytes.{get_be}
use vlgr.Server.Sni.{
  Parse, value, reject, panic, ◌>>=◌, index, record_fragment, hello_body, skip_short, skip_long,
  extension_block, parse_names, parse_server_name, find_server_name, parse_hello, extract_sni,
}

bind-ne-panic {ℓ κ} :
    {A : Type ℓ} {B : Type κ} (m : Parse A) (f : A → Parse B)
    → m ≢ panic
    → ((a : A) → f a ≢ panic)
    → (m >>= f) ≢ panic
bind-ne-panic (value a) f hm hf = hf a
bind-ne-panic reject f hm hf = λ e. cc
bind-ne-panic panic f hm hf = λ e. hm refl

index_zero-ne-panic : (b : List ℕ) → 1 ≤ length b → index b 0 ≢ panic
unfolding index
index_zero-ne-panic [] h = absurd (omega arith)
index_zero-ne-panic (x ∷ b) h = λ e. cc

record_fragment-ne-panic : (input : List ℕ) → record_fragment input ≢ panic
unfolding record_fragment
record_fragment-ne-panic [] = λ e. cc
record_fragment-ne-panic (t ∷ input) = λ e. ground (arith, length-drop 2 input, length-drop 4 input)

hello_body-ne-panic : (hs : List ℕ) → hello_body hs ≢ panic
unfolding hello_body
hello_body-ne-panic [] = λ e. cc
hello_body-ne-panic (t ∷ hs) = λ e. ground (arith, length-drop 3 hs)

skip_short-ne-panic : (b : List ℕ) → skip_short b ≢ panic
unfolding skip_short
skip_short-ne-panic [] = λ e. cc
skip_short-ne-panic (n ∷ b) = λ e. ground arith

skip_long-ne-panic : (b : List ℕ) → skip_long b ≢ panic
unfolding skip_long
skip_long-ne-panic b = λ e. ground (arith, length-drop 2 b)

extension_block-ne-panic : (b : List ℕ) → extension_block b ≢ panic
unfolding extension_block
extension_block-ne-panic b = λ e. ground (arith, length-drop 2 b)

parse_names-ne-panic : (fuel : ℕ) (ext : List ℕ) → parse_names fuel ext ≢ panic
unfolding parse_names
parse_names-ne-panic zero ext = λ e. cc
parse_names-ne-panic (suc fuel) [] = λ e. cc
parse_names-ne-panic (suc fuel) (t ∷ ext) = λ e. ground (
  arith,
  length-drop 2 ext,
  parse_names-ne-panic fuel (drop (get_be 0 (take 2 ext)) (drop 2 ext)),
)

parse_server_name-ne-panic : (ext : List ℕ) → parse_server_name ext ≢ panic
unfolding parse_server_name
parse_server_name-ne-panic ext =
    λ e. ground (arith, length-drop 2 ext, parse_names-ne-panic (length (drop 2 ext)) (drop 2 ext))

find_server_name-ne-panic : (fuel : ℕ) (b : List ℕ) → find_server_name fuel b ≢ panic
unfolding find_server_name
find_server_name-ne-panic zero b = λ e. cc
find_server_name-ne-panic (suc fuel) b =
    let ext_len : ℕ = get_be 0 (take 2 (drop 2 b)) in
    λ e. ground (
      arith,
      length-drop 2 b,
      length-drop 4 b,
      parse_server_name-ne-panic (take ext_len (drop 4 b)),
      find_server_name-ne-panic fuel (drop ext_len (drop 4 b)),
    )

pub parse_hello-ne-panic : (hs : List ℕ) → parse_hello hs ≢ panic
unfolding parse_hello
parse_hello-ne-panic hs = bind-ne-panic (hello_body hs) _ (hello_body-ne-panic hs) λ b.
    bind-ne-panic (skip_short b) _ (skip_short-ne-panic b) λ b₁.
      bind-ne-panic (skip_long b₁) _ (skip_long-ne-panic b₁) λ b₂.
        bind-ne-panic (skip_short b₂) _ (skip_short-ne-panic b₂) λ b₃.
          bind-ne-panic (extension_block b₃) _ (extension_block-ne-panic b₃)
            λ exts. find_server_name-ne-panic (length exts) exts

-- Whatever bytes arrive, no index or slice expression of extractSNI is out of range.
pub extract_sni-ne-panic : (input : List ℕ) → extract_sni input ≢ panic
unfolding extract_sni
extract_sni-ne-panic input =
    bind-ne-panic (record_fragment input) parse_hello (record_fragment-ne-panic input)
      parse_hello-ne-panic
