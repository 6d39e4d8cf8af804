-- ===== src/Client/Streams/Reading.antt =====
-- What one read of an upload takes out of its channel, and what it leaves there.
use vlgr.Prelude.{
  ℕ, zero, suc, ◌≡◌, refl, sym, ◌∙◌, true, false, List, [], ◌∷◌, ◌++◌, Option, none, some, arith,
  take, drop, take-append-drop,
}
use mathlib.Core.List.{append_assoc, append-nil}
use vlgr.Prelude.Assoc.{nat_key}
use vlgr.Client.{BodyStream}
use vlgr.Client.Streams.{
  ReadResult, bytes, eof, body_aborted, tunnel_closed, waits, next_chunk, copy_out, read,
}
use vlgr.Client.Streams.Upload.{bytes_of}

abbrev pub joined : List (List ℕ) → List ℕ
joined [] = []
joined (c ∷ cs) = c ++ joined cs

pub joined-append : (cs : List (List ℕ)) (c : List ℕ) → joined (cs ++ c ∷ []) ≡ joined cs ++ c
joined-append [] c = append-nil c
joined-append (x ∷ cs) c = rw (joined-append cs c) (sym (append_assoc x (joined cs) c))

next_chunk-joined :
    (stops : Option ℕ) (s : BodyStream) (cs : List (List ℕ))
    → bytes_of (next_chunk stops s cs).1 ++ joined (next_chunk stops s cs).0 ≡ joined cs
unfolding next_chunk
next_chunk-joined (some zero) s cs = refl
next_chunk-joined none s [] = ground arith
next_chunk-joined (some (suc k)) s [] = ground arith
next_chunk-joined none s ([] ∷ cs) = next_chunk-joined none s cs
next_chunk-joined (some (suc k)) s ([] ∷ cs) = next_chunk-joined (some k) s cs
next_chunk-joined none s ((b ∷ bs) ∷ cs) = refl
next_chunk-joined (some (suc k)) s ((b ∷ bs) ∷ cs) = refl

-- An end that next_chunk reports is the end of a channel that was closed in good order.
next_chunk-eof :
    (stops : Option ℕ) (s : BodyStream) (cs : List (List ℕ))
    → (next_chunk stops s cs).1 ≡ eof
    → ((next_chunk stops s cs).0 ≡ []) × (s.ch_closed ≡ true) × (s.aborted ≡ false)
unfolding next_chunk
next_chunk-eof (some zero) s cs h = absurd (cc h)
next_chunk-eof none s [] h = ground (arith, h)
next_chunk-eof (some (suc k)) s [] h = ground (arith, h)
next_chunk-eof none s ([] ∷ cs) h = next_chunk-eof none s cs h
next_chunk-eof (some (suc k)) s ([] ∷ cs) h = next_chunk-eof (some k) s cs h
next_chunk-eof none s ((b ∷ bs) ∷ cs) h = absurd (cc h)
next_chunk-eof (some (suc k)) s ((b ∷ bs) ∷ cs) h = absurd (cc h)

-- What a read leaves of the stream `s` and the remainder `rem`.
pub record Reads (s : BodyStream) (rem : List ℕ) (s' : BodyStream) (rem' : List ℕ)
    (res : ReadResult) : Type 0 where
  pub keeps : bytes_of res ++ (rem' ++ joined s'.ch) ≡ rem ++ joined s.ch
  pub closed : s'.ch_closed ≡ s.ch_closed
  pub aborted : s'.aborted ≡ s.aborted
  pub at_eof : res ≡ eof → (rem' ≡ []) × (s'.ch ≡ []) × (s.ch_closed ≡ true) × (s.aborted ≡ false)

copy_out-Reads :
    (n : ℕ) (s : BodyStream) (cs : List (List ℕ)) (res : ReadResult)
    → bytes_of res ++ joined cs ≡ joined s.ch
    → (res ≡ eof → (cs ≡ []) × (s.ch_closed ≡ true) × (s.aborted ≡ false))
    → let (s', rem', res') = copy_out n s (cs, res) in Reads s [] s' rem' res'
unfolding copy_out
copy_out-Reads n s cs (bytes b) h e = record {
  keeps = sym (append_assoc (take n b) (drop n b) (joined cs)) ∙ (rw (take-append-drop n b) h);
  closed = refl;
  aborted = refl;
  at_eof = λ x. absurd (cc x);
}
copy_out-Reads n s cs eof h e = record {
  keeps = h;
  closed = refl;
  aborted = refl;
  at_eof = λ x. (refl, (e refl).0, (e refl).1, (e refl).2);
}
copy_out-Reads n s cs body_aborted h e = record {
  keeps = h;
  closed = refl;
  aborted = refl;
  at_eof = λ x. absurd (cc x);
}
copy_out-Reads n s cs tunnel_closed h e = record {
  keeps = h;
  closed = refl;
  aborted = refl;
  at_eof = λ x. absurd (cc x);
}
copy_out-Reads n s cs waits h e = record {
  keeps = h;
  closed = refl;
  aborted = refl;
  at_eof = λ x. absurd (cc x);
}

pub read-Reads :
    (n : ℕ) (stops : Option ℕ) (s : BodyStream) (rem : List ℕ)
    → let (s', rem', res) = read n stops s rem in Reads s rem s' rem' res
unfolding read
read-Reads n stops s [] =
    copy_out-Reads n s (next_chunk stops s s.ch).0 (next_chunk stops s s.ch).1
      (next_chunk-joined stops s s.ch) (next_chunk-eof stops s s.ch)
read-Reads n stops s (b ∷ rem) = record {
  keeps =
      sym (append_assoc (take n (b ∷ rem)) (drop n (b ∷ rem)) (joined s.ch))
      ∙ (rw (take-append-drop n (b ∷ rem)));
  closed = refl;
  aborted = refl;
  at_eof = λ x. absurd (cc x);
}
