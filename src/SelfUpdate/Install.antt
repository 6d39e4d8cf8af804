-- ===== src/SelfUpdate/Install.antt =====
-- internal/selfupdate/selfupdate.go: one round of the update loop, from the tag of the latest release
-- to the files on disk.
-- The files are those next to the running executable. A call of the operating system does what it is
-- documented to do, or fails and changes nothing: which of the two is an argument, `Env`, as are the
-- answers over HTTP, hex.DecodeString and ed25519.Verify. The relaunch that follows is not modelled.
pub mod Verified
use vlgr.Prelude.{
  ℕ, ◌*◌, ◌^◌, Bool, true, false, not, ◌||◌, List, [], ◌∷◌, ◌++◌, Option, none, some, length, take,
  ◌==◌, bytes_eq, if◌then◌else◌,
}
use vlgr.Prelude.Bytes.{codes}
use vlgr.Prelude.Outcome.{Outcome, ok, err, ◌>>=◌, ◌>>◌, refuse_if}
use vlgr.Prelude.Text.{trim_space}
use vlgr.SelfUpdate.{newer}

abbrev pub max_download_size : ℕ
max_download_size = 256 * 2 ^ 20

abbrev pub public_key_size : ℕ
public_key_size = 32

abbrev pub signature_size : ℕ
signature_size = 64

pub record Config : Type 0 where
  pub current : List ℕ
  pub public_key_hex : List ℕ

-- An answer over HTTP; `breaks` says that reading its body ends in an error.
pub record Response : Type 0 where
  pub status_code : ℕ
  pub body : List ℕ
  pub breaks : Bool

-- The running executable, and the files with ".new" and ".old" behind its name.
pub record Files : Type 0 where
  pub exe : Option (List ℕ)
  pub new : Option (List ℕ)
  pub old : Option (List ℕ)

pub data Error : Type 0 where
  no_tag no_executable request_failed bad_status read_failed open_failed close_failed : Error
  no_key bad_key bad_signature mismatch : Error
  not_moved_aside not_installed : Error

-- `signing_public_key` is what the build has set, and the Booleans say which calls succeed.
pub record Env : Type 0 where
  pub signing_public_key : List ℕ
  pub finds_executable : Bool
  pub binary : Option Response
  pub opens : Bool
  pub closes : Bool
  pub removes : Bool
  pub reads : Bool
  pub signature : Option Response
  pub decode_hex : List ℕ → Option (List ℕ)
  pub ed25519_verify : List ℕ → List ℕ → List ℕ → Bool
  pub moves_aside : Bool
  pub moves_in : Bool
  pub moves_back : Bool

abbrev pub remove_new : Env → Files → Files
remove_new env files = if env.removes then record files { new = none } else files

-- os.Rename from ".new" to the executable, and the other two.
abbrev move_in : Files → Files
move_in files = record files { exe = files.new; new = none }

abbrev move_aside : Files → Files
move_aside files = record files { old = files.exe; exe = none }

abbrev move_back : Files → Files
move_back files = record files { exe = files.old; old = none }

unfoldable pub response_body : ℕ → Option Response → Outcome Error Response
response_body limit none = err request_failed
response_body limit (some resp) =
    if resp.status_code == 200
    then ok (record resp { body = take limit resp.body })
    else err bad_status

unfoldable pub download : Env → Files → Files × Outcome Error (Unit {0})
unfolding response_body
download env files = elim (response_body max_download_size env.binary) [
  | err e ↦ (files, err e)
  | ok resp ↦
      if not env.opens
      then (files, err open_failed)
      else let files' : Files = record files { new = some resp.body } in
        if resp.breaks
        then (remove_new env files', err read_failed)
        else if not env.closes
        then (files', err close_failed)
        else (files', ok tt)
]

unfoldable pub verify : Env → List ℕ → List ℕ → List ℕ → Outcome Error (Unit {0})
unfolding trim_space
verify env pub_hex data_ sig = elim (env.decode_hex (trim_space pub_hex)) [
  | none ↦ err bad_key
  | some key ↦
      refuse_if (not (length key == public_key_size)) bad_key
      >> refuse_if (not (length sig == signature_size)) bad_signature
      >> refuse_if (not (env.ed25519_verify key data_ sig)) mismatch
]

unfoldable pub fetch_signature : Env → Outcome Error (List ℕ)
unfolding response_body trim_space
fetch_signature env = elim (response_body 4096 env.signature) [
  | err e ↦ err e
  | ok resp ↦
      if resp.breaks then err read_failed else elim (env.decode_hex (trim_space resp.body)) [
        | none ↦ err bad_signature
        | some sig ↦ ok sig
      ]
]

unfoldable pub effective_key : Env → Config → List ℕ
unfolding bytes_eq
effective_key env cfg =
    if bytes_eq cfg.public_key_hex [] then env.signing_public_key else cfg.public_key_hex

abbrev pub read_new : Env → Files → Outcome Error (List ℕ)
read_new env files =
    if env.reads
    then elim files.new [ none ↦ err read_failed | some data_ ↦ ok data_ ]
    else err read_failed

unfoldable pub verify_download : Env → Config → Files → Outcome Error (Unit {0})
unfolding effective_key fetch_signature verify bytes_eq
verify_download env cfg files =
    let key = effective_key env cfg in
    if bytes_eq key []
    then err no_key
    else read_new env files >>= λ data_. fetch_signature env >>= λ sig. verify env key data_ sig

-- What follows the verification in apply.
unfoldable pub swap : Env → Files → Files × Outcome Error (Unit {0})
swap env files =
    let cleared : Files = if env.removes then record files { old = none } else files in
    if not env.moves_aside
    then (remove_new env cleared, err not_moved_aside)
    else let aside = move_aside cleared in
      if env.moves_in
      then (move_in aside, ok tt)
      else (if env.moves_back then move_back aside else aside, err not_installed)

unfoldable pub apply : Env → Config → Files → Files × Outcome Error (Unit {0})
unfolding download verify_download swap
apply env cfg files =
    if not env.finds_executable
    then (files, err no_executable)
    else let (files', downloaded) = download env files in
      elim downloaded [
        | err e ↦ (files', err e)
        | ok u ↦ elim (verify_download env cfg files') [
          | err e ↦ (remove_new env files', err e)
          | ok v ↦ swap env files'
        ]
      ]

abbrev pub installs : Outcome Error (Unit {0}) → Outcome Error Bool
installs (err e) = err e
installs (ok u) = ok true

-- The tag is what latestTag gives; the Bool says whether a new binary was installed.
unfoldable pub check_once :
    Env → Config → Outcome Error (List ℕ) → Files → Files × Outcome Error Bool
unfolding newer apply
check_once env cfg (err e) files = (files, err e)
check_once env cfg (ok latest) files =
    let (files', result) = apply env cfg files in
    if not (newer cfg.current latest) then (files, ok false) else (files', installs result)

-- The guard of Run for development builds.
unfoldable pub updates : Config → Bool
unfolding bytes_eq
updates cfg = not (bytes_eq cfg.current (codes "dev") || bytes_eq cfg.current [])
