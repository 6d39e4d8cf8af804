-- ===== src/Server/Sni/Peek.antt =====
-- peekClientHello over the reads of a connection.
use vlgr.Prelude.{
  ℕ, ◌≤◌, ◌<◌, ◌≡◌, ◌≢◌, ◌⊎◌, refl, sym, ◌∙◌, ap, true, false, List, [], ◌∷◌, ◌++◌, Option, none,
  some, arith, length, ltb, if_cases, Bool-cases, inl, inr, length-append, All, take-append_le,
  length-eq_zero, lt→ltb,
}
use vlgr.Prelude.Bytes.{get_be}
use vlgr.Server.Sni.{
  Parse, value, reject, panic, ◌>>=◌, record_fragment, parse_hello, extract_sni, Chunk, peek_loop,
  peek_client_hello,
}
use vlgr.Server.Sni.NoPanic.{extract_sni-ne-panic}
use mathlib.Core.List.{append-nil, append_assoc}

record_fragment-append :
    (input more hs : List ℕ)
    → record_fragment input ≡ value hs
    → record_fragment (input ++ more) ≡ value hs
unfolding record_fragment
record_fragment-append (t ∷ v ∷ w ∷ l ∷ m ∷ rest) more hs h =
    ground (arith, length-append rest more, take-append_le (get_be 0 (l ∷ m ∷ [])) rest more)
record_fragment-append _ more hs h = cc

-- A ClientHello that was read keeps its name when more bytes arrive.
pub extract_sni-append :
    (input more name : List ℕ)
    → extract_sni input ≡ value name
    → extract_sni (input ++ more) ≡ value name
unfolding extract_sni
extract_sni-append input more name h = fragment (record_fragment input) refl h
  where
    fragment :
        (r : Parse (List ℕ))
        → record_fragment input ≡ r
        → (r >>= λ hs. parse_hello hs) ≡ value name
        → extract_sni (input ++ more) ≡ value name
    fragment (value hs) e g = rw (record_fragment-append input more hs e) g
    fragment reject e g = cc
    fragment panic e g = cc

-- The bytes of all reads.
abbrev pub received : List Chunk → List ℕ
received [] = []
received (c ∷ chunks) = c.bytes ++ received chunks

Parse-cases {ℓ} : {A : Type ℓ} (r : Parse A) → r ≢ panic → ((a : A) × (r ≡ value a)) ⊎ (r ≡ reject)
Parse-cases (value a) h = inl (a, refl)
Parse-cases reject h = inr refl
Parse-cases panic h = absurd (h refl)

-- Why the loop stops without a name: there are no more reads, the buffer is full, or the last of the
-- reads before has failed.
pub data Stopped (n : List ℕ) (before after : List Chunk) : Type 0 where
  ended : after ≡ [] → Stopped n before after
  full : 8192 ≤ length n → Stopped n before after
  failed :
      (front : List Chunk) (c : Chunk)
      → before ≡ front ++ c ∷ []
      → c.failed ≡ true
      → Stopped n before after

-- What the loop leaves in the buffer `buf` are all the bytes of the reads that it made, `before`.
pub data Peeked (buf : List ℕ) (chunks : List Chunk) : List ℕ × Option (List ℕ) → Type 0 where
  found :
      (name : List ℕ) (before after : List Chunk)
      → chunks ≡ before ++ after
      → (n : List ℕ) → n ≡ buf ++ received before
      → extract_sni n ≡ value name
      → Peeked buf chunks (n, some name)
  missing :
      (before after : List Chunk)
      → chunks ≡ before ++ after
      → (n : List ℕ) → n ≡ buf ++ received before
      → Stopped n before after
      → Peeked buf chunks (n, none)

Stopped-step :
    (n : List ℕ) (c : Chunk) (before after : List Chunk)
    → Stopped n before after
    → Stopped n (c ∷ before) after
Stopped-step n c before after (ended e) = ended e
Stopped-step n c before after (full e) = full e
Stopped-step n c before after (failed front d e f) =
    failed (c ∷ front) d (ap (λ (cs : List Chunk). c ∷ cs) e) f

Peeked-step :
    (buf : List ℕ) (c : Chunk) (chunks : List Chunk) (r : List ℕ × Option (List ℕ))
    → Peeked (buf ++ c.bytes) chunks r
    → Peeked buf (c ∷ chunks) r
Peeked-step buf c chunks _ (found name before after e n f g) =
    found name (c ∷ before) after (ap (λ (cs : List Chunk). c ∷ cs) e) n
      (f ∙ append_assoc buf c.bytes (received before)) g
Peeked-step buf c chunks _ (missing before after e n f g) =
    missing (c ∷ before) after (ap (λ (cs : List Chunk). c ∷ cs) e) n
      (f ∙ append_assoc buf c.bytes (received before)) (Stopped-step n c before after g)

one_read : (buf : List ℕ) (c : Chunk) → buf ++ c.bytes ≡ buf ++ received (c ∷ [])
one_read buf c = ap (λ bs. buf ++ bs) (sym (append-nil c.bytes))

peek_loop-Peeked : (buf : List ℕ) (chunks : List Chunk) → Peeked buf chunks (peek_loop buf chunks)
unfolding peek_loop
peek_loop-Peeked buf [] = missing [] [] refl buf (sym (append-nil buf)) (ended refl)
peek_loop-Peeked buf (c ∷ chunks) =
    let P = Peeked buf (c ∷ chunks) in
    let rest =
      if_cases P c.failed (buf ++ c.bytes, none) (peek_loop (buf ++ c.bytes) chunks)
        (λ e. missing (c ∷ []) chunks refl (buf ++ c.bytes) (one_read buf c) (failed [] c refl e))
        (λ e. Peeked-step buf c chunks _ (peek_loop-Peeked (buf ++ c.bytes) chunks)) in
    let stop = λ (e : ltb (length buf) 8192 ≡ false).
      missing [] (c ∷ chunks) refl buf (sym (append-nil buf)) (full (ground (arith, e))) in
    elim (Parse-cases (extract_sni (buf ++ c.bytes)) (extract_sni-ne-panic (buf ++ c.bytes))) [
      | inl (name, e) ↦ rw e (
          if_cases P (ltb (length buf) 8192) _ _
            (λ more.
              if_cases P (ltb 0 (length c.bytes)) _ _
                (λ some_. found name (c ∷ []) chunks refl (buf ++ c.bytes) (one_read buf c) e)
                (λ none_. rest))
            stop)
      | inr e ↦ rw e (
          if_cases P (ltb (length buf) 8192) _ _
            (λ more. if_cases P (ltb 0 (length c.bytes)) _ _ (λ some_. rest) (λ none_. rest)) stop)
    ]

-- Whatever the reads, the prefix that is handed on holds every byte that was read, in order, and no
-- other; a name that is returned is the name in that prefix, and without one the reading went on
-- until there was no more to read, a read failed or 8192 bytes were there.
pub peek_client_hello-Peeked : (chunks : List Chunk) → Peeked [] chunks (peek_client_hello chunks)
unfolding peek_client_hello
peek_client_hello-Peeked chunks = peek_loop-Peeked [] chunks

append-eq_self : (buf xs : List ℕ) → length xs ≤ 0 → buf ++ xs ≡ buf
append-eq_self buf xs h = rw (length-eq_zero xs h, append-nil buf)

-- Nothing was found in the buffer so far.
abbrev NotYet : List ℕ → Type 0
NotYet buf = (name : List ℕ) → extract_sni buf ≢ value name

peek_loop_complete :
    (buf : List ℕ) (chunks : List Chunk) (name : List ℕ)
    → NotYet buf
    → All (λ c. c.failed ≡ false) chunks
    → length (buf ++ received chunks) ≤ 8192
    → extract_sni (buf ++ received chunks) ≡ value name
    → (peek_loop buf chunks).1 ≡ some name
unfolding peek_loop
peek_loop_complete buf [] name not good small h = absurd (not name (rw (append-nil buf) at h))
peek_loop_complete buf (c ∷ chunks) name not good small h =
    let whole = append_assoc buf c.bytes (received chunks) in
    let room : length buf < 8192 = elim (Bool-cases (ltb (length buf) 8192)) [
      | inl e ↦ ground arith
      | inr e ↦ absurd (
          not name (
            rw
              (append-eq_self buf (c.bytes ++ received chunks)
                (ground (arith, length-append buf (c.bytes ++ received chunks))))
              at h))
    ] in
    elim (Parse-cases (extract_sni (buf ++ c.bytes)) (extract_sni-ne-panic (buf ++ c.bytes))) [
      | inl (found_name, e) ↦
          let there : extract_sni ((buf ++ c.bytes) ++ received chunks) ≡ value name = rw whole h in
          let same : found_name ≡ name =
            cc (extract_sni-append (buf ++ c.bytes) (received chunks) found_name e) in
          let some_bytes : 0 < length c.bytes = elim (Bool-cases (ltb 0 (length c.bytes))) [
            | inl more ↦ ground arith
            | inr none_left ↦
                absurd (not found_name (rw (append-eq_self buf c.bytes (ground arith)) at e))
          ] in
          rw (e, lt→ltb (length buf) 8192 room, lt→ltb 0 (length c.bytes) some_bytes) (ap some same)
      | inr e ↦
          let rest =
            peek_loop_complete (buf ++ c.bytes) chunks name (λ other f. cc) good.1 (rw whole small)
              (rw whole h) in
          rw (e, good.0, lt→ltb (length buf) 8192 room) (ground (arith, rest))
    ]

nothing_yet : NotYet []
unfolding extract_sni record_fragment
nothing_yet name h = cc

-- When all reads succeed and bring at most 8192 bytes, and these begin with a ClientHello that
-- names a host, that host is found however the bytes were cut into reads.
pub peek_client_hello_complete :
    (chunks : List Chunk) (name : List ℕ)
    → All (λ c. c.failed ≡ false) chunks
    → length (received chunks) ≤ 8192
    → extract_sni (received chunks) ≡ value name
    → (peek_client_hello chunks).1 ≡ some name
unfolding peek_client_hello
peek_client_hello_complete chunks name = peek_loop_complete [] chunks name nothing_yet
