-- ===== src/Manifest/InMemory.antt =====
-- fusio-manifest/src/impls/mem: the manifest's stores over the in-memory file system.
use fusio.Base.{◌+◌, ◌<◌, ◌≡◌, refl, sym, ap, subst, Option, List, Text}
use fusio.Effect.{Result, ok, err, spent}
use fusio.Manifest.Types.{FsError}
use fusio.Memory.{MemFs, CasCondition, load_with_tag, put_conditional, object}
use fusio.Memory.Tags.{IsWellFormed, Cas, put_conditional-Cas}
use fusio.Manifest.HeadStore.{CasStore, CasLaws, Swapped}

abbrev pub mem_cas : CasStore MemFs
mem_cas = record { load_with_tag = load_with_tag; put_conditional = put_conditional }

-- A well-formed file system that has given out fewer than 2^64 - 2 tags.
abbrev pub Fine : MemFs → Type 0
Fine fs = IsWellFormed fs × (fs.counter + 2 < 18446744073709551616)

Cas-Swapped :
    (key payload : Text) (c : CasCondition) (fs : MemFs) (r : Result FsError Text) (fs' : MemFs)
    → Cas key payload c fs (r, fs')
    → Swapped payload c (object key fs) (object key fs') r
Cas-Swapped key payload c fs (ok t) fs' h = (h.0, h.1)
Cas-Swapped key payload c fs (err e) fs' h = ap (object key) h.0
Cas-Swapped key payload c fs spent fs' h = absurd h

-- The in-memory file system is a compare-and-swap store in every world that is well formed and has
-- room for two more tags.
pub mem_cas-CasLaws : CasLaws mem_cas object Fine
unfolding load_with_tag
mem_cas-CasLaws = record {
  load_answer = λ p fs fine. refl;
  load_keeps = λ p fs fine. refl;
  put_lem = λ p payload ct m c fs fine.
      Cas-Swapped p payload c fs (put_conditional p payload ct m c fs).0
        (put_conditional p payload ct m c fs).1
        (put_conditional-Cas p payload ct m fs fine.0 fine.1 c);
}

Cas-Fine :
    (key payload : Text) (c : CasCondition) (fs : MemFs) (r : Result FsError Text) (fs' : MemFs)
    (x : FsError)
    → Cas key payload c fs (r, fs')
    → r ≡ err x
    → Fine fs
    → Fine fs'
Cas-Fine key payload c fs (ok t) fs' x h e fine = cc
Cas-Fine key payload c fs (err y) fs' x h e fine = subst Fine (sym h.0) fine
Cas-Fine key payload c fs spent fs' x h e fine = absurd h

-- A conditional put that fails leaves the file system well formed and its counter as it was.
pub put_conditional-Fine :
    (key payload : Text) (ct : Option Text) (m : Option (List (Text × Text))) (c : CasCondition)
    (fs : MemFs) (x : FsError)
    → Fine fs
    → (put_conditional key payload ct m c fs).0 ≡ err x
    → Fine (put_conditional key payload ct m c fs).1
put_conditional-Fine key payload ct m c fs x fine e =
    Cas-Fine key payload c fs (put_conditional key payload ct m c fs).0
      (put_conditional key payload ct m c fs).1 x
      (put_conditional-Cas key payload ct m fs fine.0 fine.1 c) e fine
