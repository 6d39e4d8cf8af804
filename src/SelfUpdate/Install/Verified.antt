-- ===== src/SelfUpdate/Install/Verified.antt =====
-- What a round of the update loop leaves on disk.
use vlgr.Prelude.{
  ℕ, ◌≡◌, ◌≢◌, refl, ◌∙◌, Bool, true, false, not, List, [], none, some, arith, length, bytes_eq,
  Bool-cases, Option-cases, if_elim, if_cases, inl, inr, if◌then◌else◌,
}
use vlgr.Prelude.Outcome.{Outcome, ok, err, Outcome-cases, >>=-eq-ok}
use vlgr.Prelude.Text.{trim_space}
use vlgr.SelfUpdate.{newer}
use vlgr.SelfUpdate.Install.{
  Config, Files, Error, Env, response_body, download, verify, fetch_signature, effective_key,
  verify_download, read_new, remove_new, not_moved_aside, not_installed, max_download_size, swap,
  apply, installs, check_once, public_key_size, signature_size,
}

-- A binary with a signature of it that the key verifies; the key is not empty.
pub record IsSigned (env : Env) (cfg : Config) (data_ : List ℕ) : Type 0 where
  sig : List ℕ
  key : List ℕ
  fetched : fetch_signature env ≡ ok sig
  set : bytes_eq (effective_key env cfg) [] ≡ false
  decoded : env.decode_hex (trim_space (effective_key env cfg)) ≡ some key
  key_size : length key ≡ public_key_size
  sig_size : length sig ≡ signature_size
  verified : env.ed25519_verify key data_ sig ≡ true

-- Where the executable is after a round: where it was, or replaced by a signed binary and moved
-- aside, or moved aside only, which takes two renames that fail after one that does not.
pub data Round (env : Env) (cfg : Config) (before after : Files) : Outcome Error Bool → Type 0 where
  kept :
      (result : Outcome Error Bool)
      → result ≢ ok true
      → after.exe ≡ before.exe
      → Round env cfg before after result
  installed :
      (data_ : List ℕ)
      → IsSigned env cfg data_
      → after.exe ≡ some data_
      → after.old ≡ before.exe
      → Round env cfg before after (ok true)
  stranded :
      env.moves_aside ≡ true
      → env.moves_in ≡ false
      → env.moves_back ≡ false
      → after.exe ≡ none
      → after.old ≡ before.exe
      → Round env cfg before after (err not_installed)

verify-IsSigned :
    (env : Env) (cfg : Config) (data_ sig : List ℕ)
    → fetch_signature env ≡ ok sig
    → bytes_eq (effective_key env cfg) [] ≡ false
    → verify env (effective_key env cfg) data_ sig ≡ ok tt
    → IsSigned env cfg data_
unfolding verify
verify-IsSigned env cfg data_ sig fetched set h =
    elim (Option-cases (env.decode_hex (trim_space (effective_key env cfg)))) [
      | inl e ↦ absurd (ground (arith, e, h))
      | inr (key, e) ↦ record {
        sig = sig;
        key = key;
        fetched = fetched;
        set = set;
        decoded = e;
        key_size = ground (arith, e, h);
        sig_size = ground (arith, e, h);
        verified = ground (arith, e, h);
      }
    ]

read_new-eq :
    (env : Env) (files : Files) (data_ : List ℕ)
    → read_new env files ≡ ok data_
    → files.new ≡ some data_
read_new-eq env files data_ h = ground (arith, h)

verify_download-IsSigned :
    (env : Env) (cfg : Config) (files : Files)
    → verify_download env cfg files ≡ ok tt
    → (data_ : List ℕ) × (files.new ≡ some data_) × IsSigned env cfg data_
unfolding verify_download
verify_download-IsSigned env cfg files h = elim (Bool-cases (bytes_eq (effective_key env cfg) [])) [
  | inl e ↦ absurd (ground (arith, e, h))
  | inr e ↦
      let rest = rw e at h in
      let (data_, read, rest') = >>=-eq-ok (read_new env files) _ rest in
      let (sig, fetched, verified) = >>=-eq-ok (fetch_signature env) _ rest' in
      (
        data_,
        read_new-eq env files data_ read,
        verify-IsSigned env cfg data_ sig fetched e verified,
      )
]

download-kept :
    (env : Env) (files : Files)
    → ((download env files).0.exe ≡ files.exe) × ((download env files).0.old ≡ files.old)
unfolding download
download-kept env files = elim (Outcome-cases (response_body max_download_size env.binary)) [
  | inr (e, d) ↦ rw (d, download) (refl, refl)
  | inl (resp, d) ↦ rw (d, download) (ground arith)
]

-- The end of apply, in the three ways that the renames can go.
data Swapped (env : Env) (before after : Files) : Outcome Error (Unit {0}) → Type 0 where
  untouched : after.exe ≡ before.exe → Swapped env before after (err not_moved_aside)
  rolled_back : after.exe ≡ before.exe → Swapped env before after (err not_installed)
  swapped : after.exe ≡ before.new → after.old ≡ before.exe → Swapped env before after (ok tt)
  left :
      env.moves_aside ≡ true
      → env.moves_in ≡ false
      → env.moves_back ≡ false
      → after.exe ≡ none
      → after.old ≡ before.exe
      → Swapped env before after (err not_installed)

swap-Swapped : (env : Env) (files : Files) → Swapped env files (swap env files).0 (swap env files).1
unfolding swap
swap-Swapped env files =
    let cleared : Files = if env.removes then record files { old = none } else files in
    if_cases (λ (p : Files × Outcome Error (Unit {0})). Swapped env files p.0 p.1)
      (not env.moves_aside) _ _ (λ e. untouched (ground arith))
      (λ e.
        if_cases (λ (p : Files × Outcome Error (Unit {0})). Swapped env files p.0 p.1) env.moves_in
          _ _ (λ e'. swapped (ground arith) (ground arith))
          (λ e'.
            if_cases (λ (f : Files). Swapped env files f (err not_installed)) env.moves_back _ _
              (λ e''. rolled_back (ground arith))
              (λ e''. left (ground (arith, e)) e' e'' refl (ground arith))))

remove_new-exe : (env : Env) (files : Files) → (remove_new env files).exe ≡ files.exe
remove_new-exe env files = ground arith

Swapped-Round :
    (env : Env) (cfg : Config) (before files after : Files) (result : Outcome Error (Unit {0}))
    (data_ : List ℕ)
    → files.exe ≡ before.exe
    → files.new ≡ some data_
    → IsSigned env cfg data_
    → Swapped env files after result
    → Round env cfg before after (installs result)
Swapped-Round env cfg before files after result data_ same new signed (untouched e) =
    kept _ (λ h. cc (h)) (cc (e, same))
Swapped-Round env cfg before files after result data_ same new signed (rolled_back e) =
    kept _ (λ h. cc (h)) (cc (e, same))
Swapped-Round env cfg before files after result data_ same new signed (swapped e o) =
    installed data_ signed (cc (e, new)) (cc (o, same))
Swapped-Round env cfg before files after result data_ same new signed (left a b c e o) =
    stranded a b c e (cc (o, same))

apply-Round :
    (env : Env) (cfg : Config) (files : Files)
    → Round env cfg files (apply env cfg files).0 (installs (apply env cfg files).1)
unfolding apply
apply-Round env cfg files =
    let down = download-kept env files in
    if_cases (λ (p : Files × Outcome Error (Unit {0})). Round env cfg files p.0 (installs p.1))
      (not env.finds_executable) _ _ (λ e. kept _ (λ h. cc (h)) refl)
      (λ e. elim (Outcome-cases (download env files).1) [
        | inr (e', d) ↦ rw (d, apply) (kept _ (λ h. cc (h)) down.0)
        | inl (u, d) ↦ elim (Outcome-cases (verify_download env cfg (download env files).0)) [
          | inr (e', d') ↦
              rw (d, apply)
                (rw (d', apply)
                  (kept _ (λ h. cc (h)) (remove_new-exe env (download env files).0 ∙ down.0)))
          | inl (v, d') ↦
              let (data_, new, signed) =
                verify_download-IsSigned env cfg (download env files).0 d' in
              rw (d, apply)
                (rw (d', apply)
                  (Swapped-Round env cfg files (download env files).0 _ _ data_ down.0 new signed
                    (swap-Swapped env (download env files).0)))
        ]
      ])

-- After a round of the update loop the executable is the one that was there before, or the result
-- says that a new one was installed: then it is a binary for which the signature that was fetched
-- verifies under a key that is set, and the one before it is in the file ".old". Only where the
-- executable could be moved aside, and then neither the new one in nor the old one back, is there no
-- executable, and then too the one before it is in ".old".
pub check_once-Round :
    (env : Env) (cfg : Config) (tag : Outcome Error (List ℕ)) (files : Files)
    → Round env cfg files (check_once env cfg tag files).0 (check_once env cfg tag files).1
unfolding check_once
check_once-Round env cfg (err e) files = kept _ (λ h. cc (h)) refl
check_once-Round env cfg (ok latest) files =
    if_elim (λ (p : Files × Outcome Error Bool). Round env cfg files p.0 p.1)
      (not (newer cfg.current latest)) _ _ (kept _ (λ h. cc (h)) refl) (apply-Round env cfg files)
