-- ===== src/Server/Sni.antt =====
-- internal/server/sni.go, and peekClientHello of internal/server/tlspass.go.
-- A slice or index expression that Go would fault on is `panic` here; `reject` is ("", false).
pub mod NoPanic
pub mod Fuel
pub mod Peek
use vlgr.Prelude.{
  ℕ, zero, suc, ◌+◌, Bool, true, false, not, List, [], ◌∷◌, ◌++◌, Option, none, some, length, take,
  drop, ltb, leb, ◌==◌, if◌then◌else◌,
}
use vlgr.Prelude.Bytes.{get_be}

pub data Parse {ℓ} (A : Type ℓ) : Type ℓ where
  value : A → Parse A
  reject : Parse A
  panic : Parse A

infixl 5 ◌>>=◌
abbrev pub ◌>>=◌ {κ ℓ} : {B : Type κ} {A : Type ℓ} → Parse A → (A → Parse B) → Parse B
panic >>= next = panic
reject >>= next = reject
value x >>= next = next x

-- `if b { return "", false }`
abbrev pub reject_if : Bool → Parse (Unit {0})
reject_if true = reject
reject_if false = value tt

infixl 5 ◌>>◌
abbrev pub ◌>>◌ {κ} : {B : Type κ} → Parse (Unit {0}) → Parse B → Parse B
passed >> next = passed >>= λ done. next

-- b[i]
unfoldable pub index : List ℕ → ℕ → Parse ℕ
index [] i = panic
index (b ∷ bs) zero = value b
index (b ∷ bs) (suc i) = index bs i

-- b[i:]
unfoldable pub slice_from : ℕ → List ℕ → Parse (List ℕ)
slice_from i b = if leb i (length b) then value (drop i b) else panic

-- b[:j]
unfoldable pub slice_to : ℕ → List ℕ → Parse (List ℕ)
slice_to j b = if leb j (length b) then value (take j b) else panic

-- binary.BigEndian.Uint16(b)
unfoldable pub uint16 : List ℕ → Parse ℕ
uint16 b = if leb 2 (length b) then value (get_be 0 (take 2 b)) else panic

-- The record header: the fragment that it announces.
unfoldable pub record_fragment : List ℕ → Parse (List ℕ)
unfolding index slice_from slice_to uint16
record_fragment input = do
  reject_if (ltb (length input) 5)
  type ← index input 0
  reject_if (not (type == 0x16))
  len ← slice_from 3 input
  rec_len ← uint16 len
  hs ← slice_from 5 input
  reject_if (ltb (length hs) rec_len)
  slice_to rec_len hs

-- The handshake header, the version and the random bytes are skipped.
unfoldable pub hello_body : List ℕ → Parse (List ℕ)
unfolding index slice_from
hello_body hs = do
  reject_if (ltb (length hs) 4)
  type ← index hs 0
  reject_if (not (type == 0x01))
  b ← slice_from 4 hs
  reject_if (ltb (length b) 34)
  slice_from 34 b

-- A vector with a length of one byte is skipped: session_id and compression_methods.
unfoldable pub skip_short : List ℕ → Parse (List ℕ)
unfolding index slice_from
skip_short b = do
  reject_if (ltb (length b) 1)
  n ← index b 0
  reject_if (ltb (length b) (1 + n))
  slice_from (1 + n) b

-- cipher_suites, whose length has two bytes
unfoldable pub skip_long : List ℕ → Parse (List ℕ)
unfolding slice_from uint16
skip_long b = do
  reject_if (ltb (length b) 2)
  n ← uint16 b
  rest ← slice_from 2 b
  reject_if (ltb (length rest) n)
  slice_from n rest

-- The extension block: what its length of two bytes covers.
unfoldable pub extension_block : List ℕ → Parse (List ℕ)
unfolding slice_from slice_to uint16
extension_block b = do
  reject_if (ltb (length b) 2)
  ext_total ← uint16 b
  rest ← slice_from 2 b
  reject_if (ltb (length rest) ext_total)
  slice_to ext_total rest

-- the loop of parseServerName; each round takes three bytes at least
unfoldable pub parse_names : ℕ → List ℕ → Parse (List ℕ)
unfolding index slice_from slice_to uint16
parse_names zero ext = reject
parse_names (suc fuel) ext = do
  reject_if (ltb (length ext) 3)
  name_type ← index ext 0
  tail ← slice_from 1 ext
  name_len ← uint16 tail
  rest ← slice_from 3 ext
  reject_if (ltb (length rest) name_len)
  if name_type == 0x00
      then slice_to name_len rest
      else do next ← slice_from name_len rest; parse_names fuel next

unfoldable pub parse_server_name : List ℕ → Parse (List ℕ)
unfolding slice_from uint16 parse_names
parse_server_name ext = do
  reject_if (ltb (length ext) 2)
  list_len ← uint16 ext
  rest ← slice_from 2 ext
  reject_if (ltb (length rest) list_len)
  parse_names (length rest) rest

-- the loop over the extensions; each round takes four bytes at least
unfoldable pub find_server_name : ℕ → List ℕ → Parse (List ℕ)
unfolding slice_from slice_to uint16
find_server_name zero b = reject
find_server_name (suc fuel) b = do
  reject_if (ltb (length b) 4)
  ext_type ← uint16 b
  tail ← slice_from 2 b
  ext_len ← uint16 tail
  rest ← slice_from 4 b
  reject_if (ltb (length rest) ext_len)
  if ext_type == 0x0000
      then (slice_to ext_len rest >>= parse_server_name)
      else (slice_from ext_len rest >>= λ next. find_server_name fuel next)

-- Behind the record header: everything that is read of the fragment.
unfoldable pub parse_hello : List ℕ → Parse (List ℕ)
unfolding hello_body skip_short skip_long extension_block find_server_name parse_server_name
parse_hello hs = do
  b ← hello_body hs
  b₁ ← skip_short b
  b₂ ← skip_long b₁
  b₃ ← skip_short b₂
  exts ← extension_block b₃
  find_server_name (length exts) exts

unfoldable pub extract_sni : List ℕ → Parse (List ℕ)
unfolding record_fragment parse_hello
extract_sni input = do hs ← record_fragment input; parse_hello hs

-- One conn.Read: the bytes that it returns, and whether it also returns an error.
pub record Chunk : Type 0 where
  pub bytes : List ℕ
  pub failed : Bool

-- The loop of peekClientHello over what the connection yields. A list that ends stands for a read
-- that fails at the deadline with no bytes.
unfoldable pub peek_loop : List ℕ → List Chunk → List ℕ × Option (List ℕ)
peek_loop buf [] = (buf, none)
peek_loop buf (c ∷ chunks) =
    let buf' = buf ++ c.bytes in
    let rest : List ℕ × Option (List ℕ) =
      if c.failed then (buf', none) else peek_loop buf' chunks in
    let tried : List ℕ × Option (List ℕ) = elim (extract_sni buf') [
      | value name ↦ (buf', some name)
      | _ ↦ rest
    ] in
    if ltb (length buf) 8192 then (if ltb 0 (length c.bytes) then tried else rest) else (buf, none)

unfoldable pub peek_client_hello : List Chunk → List ℕ × Option (List ℕ)
unfolding peek_loop
peek_client_hello = peek_loop []
