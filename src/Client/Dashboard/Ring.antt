-- ===== src/Client/Dashboard/Ring.antt =====
-- Which exchanges the inspector keeps.
use vlgr.Prelude.{
  ℕ, zero, suc, ◌+◌, ◌-◌, ◌≤◌, ◌≡◌, refl, sym, ◌∙◌, List, [], ◌∷◌, ◌++◌, arith, length,
  length-append, length-drop, drop, drop-drop, ltb, ltb→lt, ltb→le, ap, if_cases, if◌then◌else◌,
}
use mathlib.Core.List.{append_assoc, append-nil}
use vlgr.Prelude.Int.{ℤ, pos, negsuc}
use vlgr.Client.Dashboard.{ReqEntry, Dashboard, new_dashboard, entry_limit, record_entry}

unfoldable pub record_all : Dashboard → List ReqEntry → Dashboard
record_all d [] = d
record_all d (e ∷ es) = record_all (record_entry d e) es

-- The entries with the numbers from k + 1 on as their ids.
abbrev pub numbered : ℕ → List ReqEntry → List ReqEntry
numbered k [] = []
numbered k (e ∷ es) = record e { id = suc k } ∷ numbered (suc k) es

drop-append_short {ℓ} :
    {A : Type ℓ} (n : ℕ) (xs ys : List A) → n ≤ length xs → drop n (xs ++ ys) ≡ drop n xs ++ ys
drop-append_short zero xs ys h = refl
drop-append_short (suc n) [] ys h = absurd (omega arith)
drop-append_short (suc n) (x ∷ xs) ys h = drop-append_short n xs ys (omega arith)

-- The inspector has the last entries of those that it was given.
record Keeps (past : List ReqEntry) (d : Dashboard) : Type 0 where
  entries : d.entries ≡ drop (length past - d.max_entries) past
  next_id : d.next_id ≡ length past

-- Cutting after each new element is cutting at the end.
cut-append {ℓ} :
    {A : Type ℓ} (m : ℕ) (xs : List A) (x : A)
    → (let all = drop (length xs - m) xs ++ x ∷ [] in
        if ltb m (length all) then drop (length all - m) all else all)
      ≡ drop (length (xs ++ x ∷ []) - m) (xs ++ x ∷ [])
cut-append m xs x =
    let n = length xs in
    let ys = xs ++ x ∷ [] in
    let kept = drop-append_short (n - m) xs (x ∷ []) (omega arith) in
    let long = length-append (drop (n - m) xs) (x ∷ []) in
    let left = length-drop (n - m) xs in
    let whole = length-append xs (x ∷ []) in
    if_cases (λ zs. zs ≡ drop (length (xs ++ x ∷ []) - m) (xs ++ x ∷ []))
      (ltb m (length (drop (n - m) xs ++ x ∷ []))) _ _
      (λ e. rw (← kept) (
        drop-drop (n - m) (length (drop (n - m) ys) - m) (length ys - m) ys
          (omega (arith, ltb→lt m _ e, long, left, whole, length-drop (n - m) ys))))
      (λ e. sym kept ∙ ap (λ k. drop k ys) (omega (arith, ltb→le m _ e, long, left, whole)))

record_entry-Keeps :
    (past : List ReqEntry) (d : Dashboard) (e : ReqEntry)
    → Keeps past d
    → Keeps (past ++ record e { id = suc (length past) } ∷ []) (record_entry d e)
unfolding record_entry
record_entry-Keeps past d e h = record {
  entries =
      let same : d.next_id + 1 ≡ suc (length past) = omega (arith, h.next_id) in
      rw (h.entries, same) (cut-append d.max_entries past (record e { id = suc (length past) }));
  next_id = omega (arith, h.next_id, length-append past (record e { id = suc (length past) } ∷ []));
}

record_all-Keeps :
    (es past : List ReqEntry) (d : Dashboard)
    → Keeps past d
    → Keeps (past ++ numbered (length past) es) (record_all d es)
unfolding record_all
record_all-Keeps [] past d h = rw (append-nil past) h
record_all-Keeps (e ∷ es) past d h =
    let e' : ReqEntry = record e { id = suc (length past) } in
    let long : length (past ++ e' ∷ []) ≡ suc (length past) =
      omega (arith, length-append past (e' ∷ [])) in
    let next =
      record_all-Keeps es (past ++ e' ∷ []) (record_entry d e) (record_entry-Keeps past d e h) in
    rw (← append_assoc past (e' ∷ []) (numbered (suc (length past)) es)) (rw long at next)

record_all-limit :
    (es : List ReqEntry) (d : Dashboard) → (record_all d es).max_entries ≡ d.max_entries
unfolding record_entry record_all
record_all-limit [] d = refl
record_all-limit (e ∷ es) d = record_all-limit es (record_entry d e)

length-numbered : (k : ℕ) (es : List ReqEntry) → length (numbered k es) ≡ length es
length-numbered k [] = refl
length-numbered k (e ∷ es) = ap suc (length-numbered (suc k) es)

entry_limit-pos : (limit : ℤ) → 1 ≤ entry_limit limit
entry_limit-pos (pos zero) = omega arith
entry_limit-pos (pos (suc n)) = omega arith
entry_limit-pos (negsuc n) = omega arith

-- An inspector that has recorded some exchanges has the last of them, in the order in which they
-- came, as many as its limit allows, each with its number as its id; the limit is between 1 and
-- 100000 whatever was asked for.
pub record_all-new_dashboard :
    (limit : ℤ) (es : List ReqEntry)
    → let m = (new_dashboard limit).max_entries in
      ((record_all (new_dashboard limit) es).entries ≡ drop (length es - m) (numbered 0 es))
      × (1 ≤ m)
      × (m ≤ 100000)
unfolding new_dashboard
record_all-new_dashboard limit es =
    let m = (new_dashboard limit).max_entries in
    let start : 0 - m ≡ 0 = omega arith in
    let h =
      record_all-Keeps es [] (new_dashboard limit)
        (record { entries = rw start refl; next_id = refl }) in
    (
      h.entries
          ∙ ap (λ k. drop k (numbered 0 es))
              (omega (arith, record_all-limit es (new_dashboard limit), length-numbered 0 es)),
      ground (arith, entry_limit-pos limit),
      ground arith,
    )
