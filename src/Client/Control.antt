-- ===== src/Client/Control.antt =====
-- internal/client/tunnel.go, handleControlConn, and cmd/client/main.go, queryForwards and
-- sendCtlCommand: the control socket of a running client.
-- strings.Fields, strconv.Atoi and the decimal of a number are parameters, `Lines`. What follows the
-- line of a DEL or an ADD is the call of RemovePort or AddPort.
pub mod Listed
use vlgr.Prelude.{
  ℕ, zero, suc, ◌≡◌, refl, ◌∙◌, false, ◌||◌, ◌==◌, arith, All, not, List, [], ◌∷◌, ◌++◌, Option,
  none, some, length, ltb, map, ap, bytes_eq, if◌then◌else◌,
}
use vlgr.Prelude.Bytes.{codes}
use vlgr.Prelude.Int.{ℤ, pos, negsuc}
use vlgr.Prelude.Outcome.{Outcome, ok, err}
use vlgr.Prelude.Text.{trim_space, contains_byte}
use mathlib.Core.List.{append_assoc}
use vlgr.Client.{Forward, Tunnel}

pub record Lines : Type 0 where
  pub fields : List ℕ → List (List ℕ)
  pub atoi : List ℕ → Option ℤ
  pub itoa : ℕ → List ℕ

pub data Command : Type 0 where
  ignored bad_command invalid_port lists : Command
  adds : ℕ → List ℕ → Command
  removes : ℕ → Command

-- The port of a command: Atoi gives 0 with its error, or the nearest int.
unfoldable pub port_argument : Lines → List (List ℕ) → Option ℕ
port_argument lines [] = none
port_argument lines (p ∷ rest) = elim (lines.atoi p) [
  | none ↦ none
  | some n ↦ elim n [
    | negsuc m ↦ none
    | pos zero ↦ none
    | pos (suc m) ↦ if ltb 65535 (suc m) then none else some (suc m)
  ]
]

abbrev second : List (List ℕ) → List ℕ
second [] = []
second (p ∷ []) = []
second (p ∷ s ∷ rest) = s

unfoldable pub parse_command : Lines → List ℕ → Command
unfolding trim_space bytes_eq port_argument
parse_command lines raw =
    let line = trim_space raw in
    if bytes_eq line [] then ignored else elim (lines.fields line) [
      | [] ↦ ignored
      | name ∷ args ↦
          if bytes_eq name (codes "ADD")
          then elim (port_argument lines args) [
            | none ↦ invalid_port
            | some p ↦ adds p (second args)
          ]
          else if bytes_eq name (codes "DEL")
          then elim (port_argument lines args) [ none ↦ invalid_port | some p ↦ removes p ]
          else if bytes_eq name (codes "LIST")
          then lists
          else bad_command
    ]

abbrev pub newline : List ℕ
newline = 10 ∷ []

unfoldable pub forward_line : Lines → Forward → List ℕ
forward_line lines f = lines.itoa f.port ++ (codes " " ++ (f.url ++ newline))

unfoldable pub forward_lines : Lines → List Forward → List ℕ
unfolding forward_line
forward_lines lines [] = []
forward_lines lines (f ∷ fs) = forward_line lines f ++ forward_lines lines fs

-- The bytes of the answer to LIST.
unfoldable pub list_answer : Lines → Tunnel → List ℕ
unfolding forward_lines
list_answer lines t =
    (codes "OK " ++ (lines.itoa (length t.forwards) ++ newline)) ++ forward_lines lines t.forwards

-- bufio.Reader.ReadString: the bytes up to the newline and with it, and those behind it; an error
-- where there is none.
unfoldable pub read_string : List ℕ → Option (List ℕ × List ℕ)
read_string [] = none
read_string (c ∷ cs) =
    let rest = read_string cs in
    if c == 10 then some (c ∷ [], cs) else elim rest [ none ↦ none | some r ↦ some (c ∷ r.0, r.1) ]

pub data QueryError : Type 0 where
  read_failed bad_response bad_count : QueryError

-- The loop of queryForwards over the bytes that are left.
unfoldable pub read_lines : ℕ → List ℕ → Outcome QueryError (List (List ℕ))
unfolding trim_space read_string
read_lines zero rest = ok []
read_lines (suc n) rest = elim (read_string rest) [
  | none ↦ err read_failed
  | some r ↦ elim (read_lines n r.1) [ err e ↦ err e | ok ls ↦ ok (trim_space r.0 ∷ ls) ]
]

-- queryForwards over the bytes of the answer. A negative count makes the make of the code panic;
-- `none` stands for that.
unfoldable pub query_forwards : Lines → List ℕ → Option (Outcome QueryError (List (List ℕ)))
unfolding read_string read_lines trim_space bytes_eq
query_forwards lines answer = elim (read_string answer) [
  | none ↦ some (err read_failed)
  | some r ↦ elim (lines.fields (trim_space r.0)) [
    | [] ↦ some (err bad_response)
    | okay ∷ parts ↦ elim parts [
      | [] ↦ some (err bad_response)
      | count ∷ more ↦ elim more [
        | x ∷ xs ↦ some (err bad_response)
        | [] ↦
            if not (bytes_eq okay (codes "OK"))
            then some (err bad_response)
            else elim (lines.atoi count) [
              | none ↦ some (err bad_count)
              | some n ↦ elim n [ negsuc m ↦ none | pos m ↦ some (read_lines m r.1) ]
            ]
      ]
    ]
  ]
]
