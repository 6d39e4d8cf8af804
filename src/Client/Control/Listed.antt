-- ===== src/Client/Control/Listed.antt =====
-- What a command reads of the answer to LIST.
use vlgr.Prelude.{
  ℕ, suc, ◌≡◌, refl, ◌∙◌, false, ◌||◌, arith, All, List, [], ◌∷◌, ◌++◌, some, length, map, ap,
  bytes_eq,
}
use vlgr.Prelude.Bytes.{codes}
use vlgr.Prelude.Int.{pos}
use vlgr.Prelude.Outcome.{ok}
use vlgr.Prelude.Text.{trim_space, contains_byte}
use mathlib.Core.List.{append_assoc}
use vlgr.Client.{Forward, Tunnel}
use vlgr.Client.Control.{
  Lines, newline, forward_line, forward_lines, list_answer, read_string, read_lines, query_forwards,
}

read_string-line :
    (line rest : List ℕ)
    → contains_byte 10 line ≡ false
    → read_string (line ++ (newline ++ rest)) ≡ some (line ++ newline, rest)
unfolding read_string contains_byte
read_string-line [] rest h = refl
read_string-line (c ∷ cs) rest h =
    rw (read_string-line cs rest (ground (arith, h))) (ground (arith, h))

contains_byte-append :
    (c : ℕ) (a b : List ℕ) → contains_byte c (a ++ b) ≡ (contains_byte c a || contains_byte c b)
unfolding contains_byte
contains_byte-append c [] b = refl
contains_byte-append c (x ∷ a) b = ground (arith, contains_byte-append c a b)

-- What is printed of a forward has no newline.
abbrev pub IsOneLine : Lines → Forward → Type 0
IsOneLine lines f =
    (contains_byte 10 (lines.itoa f.port) ≡ false) × (contains_byte 10 f.url ≡ false)

space_is_other : contains_byte 10 (codes " ") ≡ false
unfolding contains_byte
space_is_other = refl

okay_is_other : contains_byte 10 (codes "OK ") ≡ false
unfolding contains_byte
okay_is_other = refl

read_string-two :
    (a b rest : List ℕ)
    → contains_byte 10 a ≡ false
    → contains_byte 10 b ≡ false
    → read_string ((a ++ (b ++ newline)) ++ rest) ≡ some (a ++ (b ++ newline), rest)
read_string-two a b rest ha hb =
    let clean : contains_byte 10 (a ++ b) ≡ false =
      contains_byte-append 10 a b ∙ rw (ha, hb) refl in
    rw (← append_assoc a b newline)
      (ap read_string (append_assoc (a ++ b) newline rest) ∙ read_string-line (a ++ b) rest clean)

read_string-forward_line :
    (lines : Lines) (f : Forward) (rest : List ℕ)
    → IsOneLine lines f
    → read_string (forward_line lines f ++ rest) ≡ some (forward_line lines f, rest)
unfolding forward_line
read_string-forward_line lines f rest (port, url) =
    read_string-two (lines.itoa f.port) (codes " " ++ f.url) rest port
      (contains_byte-append 10 (codes " ") f.url ∙ rw (space_is_other, url) refl)

read_lines-suc :
    (n : ℕ) (input line rest : List ℕ) (ls : List (List ℕ))
    → read_string input ≡ some (line, rest)
    → read_lines n rest ≡ ok ls
    → read_lines (suc n) input ≡ ok (trim_space line ∷ ls)
unfolding read_lines
read_lines-suc n input line rest ls e f = rw (e, read_lines) (rw (f, read_lines) refl)

query_forwards-of_count :
    (lines : Lines) (answer head rest count : List ℕ) (n : ℕ)
    → read_string answer ≡ some (head, rest)
    → lines.fields (trim_space head) ≡ codes "OK" ∷ count ∷ []
    → lines.atoi count ≡ some (pos n)
    → query_forwards lines answer ≡ some (read_lines n rest)
unfolding query_forwards bytes_eq
query_forwards-of_count lines answer head rest count n e f g =
    rw (e, query_forwards) (rw (f, query_forwards) (rw (g, query_forwards) refl))

read_lines-forward_lines :
    (lines : Lines) (fs : List Forward)
    → All (IsOneLine lines) fs
    → read_lines (length fs) (forward_lines lines fs)
      ≡ ok (map (λ f. trim_space (lines.itoa f.port ++ (codes " " ++ (f.url ++ newline)))) fs)
unfolding read_lines forward_lines forward_line
read_lines-forward_lines lines [] h = refl
read_lines-forward_lines lines (f ∷ fs) h =
    read_lines-suc (length fs) (forward_line lines f ++ forward_lines lines fs)
      (forward_line lines f) (forward_lines lines fs) _
      (read_string-forward_line lines f (forward_lines lines fs) h.0)
      (read_lines-forward_lines lines fs h.1)

-- What a command asks the control socket of a running client for is what the client has, where no
-- URL and no decimal has a newline: the bytes of the answer to LIST are read back as one line for
-- each forward, in order, of its port and its URL, with the spaces around it gone.
pub query_forwards-list_answer :
    (lines : Lines) (t : Tunnel)
    → contains_byte 10 (lines.itoa (length t.forwards)) ≡ false
    → All (IsOneLine lines) t.forwards
    → lines.fields (trim_space (codes "OK " ++ (lines.itoa (length t.forwards) ++ newline)))
      ≡ codes "OK" ∷ lines.itoa (length t.forwards) ∷ []
    → lines.atoi (lines.itoa (length t.forwards)) ≡ some (pos (length t.forwards))
    → query_forwards lines (list_answer lines t)
      ≡ some (
          ok (
            map
              (λ f. trim_space (lines.itoa f.port ++ (codes " " ++ (f.url ++ newline))))
              t.forwards))
unfolding list_answer
query_forwards-list_answer lines t clean one_line split read =
    let n : List ℕ = lines.itoa (length t.forwards) in
    query_forwards-of_count lines (list_answer lines t) (codes "OK " ++ (n ++ newline))
      (forward_lines lines t.forwards) n (length t.forwards)
      (read_string-two (codes "OK ") n (forward_lines lines t.forwards) okay_is_other clean) split
      read
    ∙ ap some (read_lines-forward_lines lines t.forwards one_line)
