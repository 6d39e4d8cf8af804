-- ===== src/Protocol/Http/Fields.antt =====
-- The header block and the body, written and read back.
use vlgr.Prelude.{
  ℕ, ◌*◌, ◌≤◌, ◌≡◌, ◌∙◌, List, [], ◌∷◌, ◌++◌, arith, length, length-append, All, le→ltb,
}
use vlgr.Prelude.Outcome.{ok, >>=-eq-ok, ok-injective}
use vlgr.Prelude.Assoc.{bytes_key, IsMap, insert_fresh, lookup_front}
use vlgr.Prelude.Bytes.{put_be, length-put_be}
use vlgr.Protocol.{Headers, max_headers, max_values_per_header}
use vlgr.Protocol.Wire.{write_string}
use vlgr.Protocol.Wire.Laws.{read_uint-put_be, read_string-write_string}
use vlgr.Protocol.Http.{
  write_values, write_fields, write_headers, read_values, read_fields, read_headers,
}
use mathlib.Core.List.{append-nil, append_assoc}

pub read_values-write_values :
    (vs : List (List ℕ)) (b rest : List ℕ)
    → write_values vs ≡ ok b
    → read_values (length vs) (b ++ rest) ≡ ok (vs, rest)
unfolding write_values read_values
read_values-write_values [] b rest h = rw (← ok-injective h)
read_values-write_values (v ∷ vs) b rest h =
    let (b₁, e₁, h₁) = >>=-eq-ok (write_string v) _ h in
    let (b₂, e₂, h₂) = >>=-eq-ok (write_values vs) _ h₁ in
    rw (
      ← ok-injective h₂,
      append_assoc b₁ b₂ rest,
      read_string-write_string v b₁ (b₂ ++ rest) e₁,
      read_values-write_values vs b₂ rest e₂,
    )

-- The number of values of each header is within the limit of the reader.
abbrev pub FewValues : Headers → Type 0
FewValues = All (λ h. length h.1 ≤ max_values_per_header)

pub read_fields-write_fields :
    (hs m : Headers) (b rest : List ℕ)
    → IsMap (m ++ hs)
    → FewValues hs
    → write_fields hs ≡ ok b
    → read_fields (length hs) m (b ++ rest) ≡ ok (m ++ hs, rest)
unfolding write_fields read_fields
read_fields-write_fields [] m b rest dist few h = rw (← ok-injective h, append-nil m)
read_fields-write_fields ((k, vs) ∷ hs) m b rest dist few h =
    let (b₁, e₁, h₁) = >>=-eq-ok (write_string k) _ h in
    let (b₂, e₂, h₂) = >>=-eq-ok (write_values vs) _ h₁ in
    let (b₃, e₃, h₃) = >>=-eq-ok (write_fields hs) _ h₂ in
    let count = put_be 4 (length vs) in
    rw (← ok-injective h₃) (
      simp append_assoc (
        rw
          (
            read_string-write_string k b₁ (count ++ (b₂ ++ (b₃ ++ rest))) e₁,
            read_uint-put_be 4 (length vs) (b₂ ++ (b₃ ++ rest)) (omega arith),
            le→ltb max_values_per_header (length vs) few.0,
            read_values-write_values vs b₂ (b₃ ++ rest) e₂,
            insert_fresh k vs m (lookup_front m k vs hs dist),
          )
          (read_fields-write_fields hs (m ++ (k, vs) ∷ []) b₃ rest
              (rw (append_assoc m ((k, vs) ∷ []) hs) dist) few.1 e₃
            ∙ rw (append_assoc m ((k, vs) ∷ []) hs))))

-- Each header takes six bytes at least, so the reader's check of the count passes.
pub fields_room : (hs : Headers) (b : List ℕ) → write_fields hs ≡ ok b → length hs * 2 ≤ length b
unfolding write_fields
fields_room [] b h = omega arith
fields_room ((k, vs) ∷ hs) b h =
    let (b₁, e₁, h₁) = >>=-eq-ok (write_string k) _ h in
    let (b₂, e₂, h₂) = >>=-eq-ok (write_values vs) _ h₁ in
    let (b₃, e₃, h₃) = >>=-eq-ok (write_fields hs) _ h₂ in
    rw (← ok-injective h₃) (
      omega (
        arith,
        fields_room hs b₃ e₃,
        length-append b₁ (put_be 4 (length vs) ++ (b₂ ++ b₃)),
        length-append (put_be 4 (length vs)) (b₂ ++ b₃),
        length-put_be 4 (length vs),
        length-append b₂ b₃,
      ))

-- What the reader accepts beyond the writer's own limits: a map, of few headers with few values.
pub record IsReadable (hs : Headers) : Type 0 where
  pub is_map : IsMap hs
  pub few : length hs ≤ max_headers
  pub few_values : FewValues hs

pub read_headers-write_headers :
    (hs : Headers) (b rest : List ℕ)
    → IsReadable hs
    → write_headers hs ≡ ok b
    → read_headers (b ++ rest) ≡ ok (hs, rest)
unfolding write_headers read_headers
read_headers-write_headers hs b rest fit h =
    let (fields, e, h') = >>=-eq-ok (write_fields hs) _ h in
    let room = fields_room hs fields e in
    rw
      (
        ← ok-injective h',
        append_assoc (put_be 4 (length hs)) fields rest,
        read_uint-put_be 4 (length hs) (fields ++ rest) (omega (arith, fit.few)),
        le→ltb max_headers (length hs) fit.few,
        le→ltb (length (fields ++ rest)) (length hs * 2)
            (omega (arith, room, length-append fields rest)),
      )
      (read_fields-write_fields hs [] fields rest fit.is_map fit.few_values e)
