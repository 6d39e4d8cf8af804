-- ===== src/Prelude/Text.antt =====
-- Go's strings package on byte strings in UTF-8, as far as the program uses it.
use vlgr.Prelude.Tests.{leb, ◌==◌, bytes_eq, bytes_eq_refl, if◌then◌else◌}
use vlgr.Prelude.Lists.{length, take, drop}
use Prim.Native.Nat.{ℕ, zero, suc, ◌+◌, ◌-◌}
use mathlib.Core.Path.{◌≡◌, refl}
use mathlib.Core.Logic.{◌≢◌}
use mathlib.Core.Bool.{Bool, true, false, ◌&&◌, ◌||◌}
use mathlib.Core.List.{List, [], ◌∷◌, ◌++◌, reverse}
use native.Mathlib.Omega.{arith}

abbrev push_first : ℕ → List (List ℕ) → List (List ℕ)
push_first c [] = (c ∷ []) ∷ []
push_first c (p ∷ ps) = (c ∷ p) ∷ ps

-- strings.Split by a separator of one byte: one part more than separators
unfoldable pub split : ℕ → List ℕ → List (List ℕ)
split sep [] = [] ∷ []
split sep (c ∷ cs) = let rest = split sep cs in if c == sep then [] ∷ rest else push_first c rest

-- strings.HasPrefix
abbrev begins : List ℕ → List ℕ → Bool
begins [] s = true
begins (p ∷ ps) [] = false
begins (p ∷ ps) (c ∷ cs) = c == p && begins ps cs

-- The rest of a space of the block U+2000 to U+207F behind its first byte.
abbrev ends_general_space : List ℕ → Bool
ends_general_space [] = false
ends_general_space (d ∷ []) = false
ends_general_space (d ∷ e ∷ cs) =
    (d == 0x80 && ((leb 0x80 e && leb e 0x8A) || e == 0xA8 || e == 0xA9 || e == 0xAF))
    || (d == 0x81 && e == 0x9F)

-- The bytes of the space (unicode.IsSpace) that a text in UTF-8 begins with, 0 if it does not.
unfoldable pub space_width : List ℕ → ℕ
space_width [] = 0
space_width (c ∷ cs) =
    if c == 32 || (leb 9 c && leb c 13)
    then 1
    else if c == 0xC2 && (begins (0x85 ∷ []) cs || begins (0xA0 ∷ []) cs)
    then 2
    else if (c == 0xE1 && begins (0x9A ∷ 0x80 ∷ []) cs)
        || (c == 0xE2 && ends_general_space cs)
        || (c == 0xE3 && begins (0x80 ∷ 0x80 ∷ []) cs)
    then 3
    else 0

-- The same for the end of a text that is given from its end.
unfoldable pub last_space_width : List ℕ → ℕ
unfolding space_width
last_space_width r =
    if space_width (take 1 r) == 1
    then 1
    else if space_width (reverse (take 2 r)) == 2
    then 2
    else if space_width (reverse (take 3 r)) == 3
    then 3
    else 0

-- The text behind its spaces, where `skip` bytes of one are left.
unfoldable pub trim_with : (List ℕ → ℕ) → ℕ → List ℕ → List ℕ
trim_with width skip [] = []
trim_with width (suc skip) (c ∷ cs) = trim_with width skip cs
trim_with width zero (c ∷ cs) = elim (width (c ∷ cs)) [
  | zero ↦ c ∷ cs
  | suc skip ↦ trim_with width skip cs
]

-- strings.TrimSpace
unfoldable pub trim_space : List ℕ → List ℕ
unfolding trim_with space_width last_space_width
trim_space s = reverse (trim_with last_space_width 0 (reverse (trim_with space_width 0 s)))

unfoldable pub lower : ℕ → ℕ
lower c = if leb 65 c && leb c 90 then c + 32 else c

-- The letters of ASCII without their case, and the two runes that fold to one of them: the long s,
-- U+017F, and the Kelvin sign, U+212A.
unfoldable pub fold_letters : List ℕ → List ℕ
unfolding lower
fold_letters [] = []
fold_letters (c ∷ cs) =
    let rest = fold_letters cs in
    if c == 0xC5 && begins (0xBF ∷ []) cs
    then b's' ∷ drop 1 rest
    else if c == 0xE2 && begins (0x84 ∷ 0xAA ∷ []) cs
    then b'k' ∷ drop 2 rest
    else lower c ∷ rest

-- strings.EqualFold, where one of the texts is ASCII
unfoldable pub equal_fold : List ℕ → List ℕ → Bool
unfolding bytes_eq fold_letters
equal_fold a b = bytes_eq (fold_letters a) (fold_letters b)

-- strings.IndexByte, where the slice up to the index is what the program takes
unfoldable pub before_byte : ℕ → List ℕ → List ℕ
before_byte sep [] = []
before_byte sep (c ∷ cs) = let rest = before_byte sep cs in if c == sep then [] else c ∷ rest

-- strings.Contains of one byte
unfoldable pub contains_byte : ℕ → List ℕ → Bool
contains_byte sep [] = false
contains_byte sep (c ∷ cs) = c == sep || contains_byte sep cs

-- strings.HasSuffix
unfoldable pub has_suffix : List ℕ → List ℕ → Bool
unfolding bytes_eq
has_suffix s suffix =
    leb (length suffix) (length s) && bytes_eq (drop (length s - length suffix) s) suffix

-- strings.TrimSuffix, where the suffix is there
unfoldable pub trim_suffix : List ℕ → List ℕ → List ℕ
unfolding has_suffix
trim_suffix s suffix = if has_suffix s suffix then take (length s - length suffix) s else s

-- strings.TrimPrefix of one byte
unfoldable pub trim_prefix_byte : ℕ → List ℕ → List ℕ
trim_prefix_byte p [] = []
trim_prefix_byte p (c ∷ cs) = if c == p then cs else c ∷ cs

pub equal_fold_refl : (s : List ℕ) → equal_fold s s ≡ true
unfolding equal_fold
equal_fold_refl s = bytes_eq_refl (fold_letters s)

push_first-ne-nil : (c : ℕ) (ps : List (List ℕ)) → push_first c ps ≢ []
push_first-ne-nil c [] h = cc
push_first-ne-nil c (p ∷ ps) h = cc

pub split-ne-nil : (sep : ℕ) (s : List ℕ) → split sep s ≢ []
unfolding split
split-ne-nil sep [] h = cc
split-ne-nil sep (c ∷ cs) h = ground (arith, push_first-ne-nil c (split sep cs))

push_first-append :
    (c : ℕ) (ps qs : List (List ℕ)) → ps ≢ [] → push_first c (ps ++ qs) ≡ push_first c ps ++ qs
push_first-append c [] qs h = absurd (h refl)
push_first-append c (p ∷ ps) qs h = refl

-- Two texts with the separator between them are split apart from one another.
pub split-join : (sep : ℕ) (a b : List ℕ) → split sep (a ++ sep ∷ b) ≡ split sep a ++ split sep b
unfolding split
split-join sep [] b = ground arith
split-join sep (c ∷ cs) b =
    rw (split-join sep cs b, push_first-append c (split sep cs) (split sep b) (split-ne-nil sep cs))
      (ground arith)
