-- ===== src/Examples/Heads.antt =====
-- HEAD over the in-memory file system at concrete inputs.
use fusio.Base.{
  ℕ, zero, suc, ◌≡◌, refl, subst, [], ◌∷◌, Option, none, some, true, false, Text, codes, arith,
  Text-discrete,
}
use fusio.Manifest.Types.{HeadJson, if_match}
use fusio.Manifest.Heads.{Loaded}
use fusio.Manifest.Table
use fusio.Path.{parse, split, strip_first, strip_last, check_segments, is_bad, is_control}
use fusio.Memory.{MemFs, cas_if_match, put_conditional, object, loaded}
use fusio.Memory.Hex.{hex16}
use fusio.Memory.Tags.{IsWellFormed, Cas, put_conditional-Cas}
use fusio.Memory.Calls.{write_call, after, after-IsWellFormed}
use fusio.Manifest.HeadStore.{HeadCodec, load, put, load-Loaded, put-Put, PutReads}
use fusio.Manifest.InMemory.{mem_cas, mem_cas-CasLaws, Fine}

abbrev flat_seq : Option ℕ → Text → Text
flat_seq none t = 0 ∷ 0 ∷ t
flat_seq (some n) t = 1 ∷ n ∷ t

abbrev flat_id : Option Text → Text
flat_id none = 0 ∷ []
flat_id (some t) = 1 ∷ t

abbrev to_id : Text → Option Text
to_id (suc _ ∷ t) = some t
to_id _ = none

abbrev to_head : Text → Option HeadJson
to_head (v ∷ x ∷ zero ∷ n ∷ t) =
    some (record { version = v; checkpoint_id = to_id t; last_segment_seq = none; last_txn_id = x })
to_head (v ∷ x ∷ suc _ ∷ n ∷ t) =
    some
      (record { version = v; checkpoint_id = to_id t; last_segment_seq = some n; last_txn_id = x })
to_head _ = none

abbrev encoded : HeadJson → Text
encoded h = h.version ∷ h.last_txn_id ∷ flat_seq h.last_segment_seq (flat_id h.checkpoint_id)

abbrev head_codec : HeadCodec
head_codec = record { encode = λ h. some (encoded h); decode = to_head }

to_id-flat_id : (o : Option Text) → to_id (flat_id o) ≡ o
to_id-flat_id none = refl
to_id-flat_id (some t) = refl

to_head-flat :
    (v x : ℕ) (c : Option Text) (s : Option ℕ)
    → to_head (v ∷ x ∷ flat_seq s (flat_id c))
      ≡ some (record { version = v; checkpoint_id = c; last_segment_seq = s; last_txn_id = x })
to_head-flat v x c none = rw (to_id-flat_id c)
to_head-flat v x c (some n) = rw (to_id-flat_id c)

some_eq : {a b : Text} → some a ≡ some b → a ≡ b
some_eq e = cc

back : (h : HeadJson) (b : Text) → head_codec.encode h ≡ some b → head_codec.decode b ≡ some h
back h b e =
    subst (λ t. to_head t ≡ some h) (some_eq e)
      (to_head-flat h.version h.last_txn_id h.checkpoint_id h.last_segment_seq)

abbrev key : Text
key = codes "HEAD"

abbrev old : HeadJson
old = record { version = 1; checkpoint_id = none; last_segment_seq = some 1; last_txn_id = 1 }

abbrev new : HeadJson
new = record { version = 1; checkpoint_id = none; last_segment_seq = some 2; last_txn_id = 2 }

abbrev fs : MemFs
fs = record {
  heap = record { content = encoded old; metadata = []; content_type = none; etag = hex16 2 } ∷ [];
  objects = (key, 0) ∷ [];
  counter = 2;
}

fs-IsWellFormed : IsWellFormed fs
fs-IsWellFormed = record { addressed = (omega arith, tt); issued = ((2, omega arith, refl), tt) }

put_conditional_example :
    Cas key
      (encoded new)
      (cas_if_match (hex16 2))
      fs
      (put_conditional key (encoded new) none none (cas_if_match (hex16 2)) fs)
put_conditional_example =
    put_conditional-Cas key (encoded new) none none fs fs-IsWellFormed (omega arith)
      (cas_if_match (hex16 2))

load_example : Loaded (some (old, hex16 2)) (load mem_cas head_codec key fs).0
unfolding parse split strip_first strip_last check_segments is_bad is_control Text-discrete object
    loaded Table.get
load_example =
    load-Loaded mem_cas object Fine mem_cas-CasLaws head_codec back key key refl fs
      (fs-IsWellFormed, omega arith) (some (old, hex16 2)) (old, refl, refl)

put_example :
    PutReads head_codec
      (some (old, hex16 2))
      new
      (if_match (hex16 2))
      (object key (put mem_cas head_codec key new (if_match (hex16 2)) fs).1)
      (put mem_cas head_codec key new (if_match (hex16 2)) fs).0
unfolding parse split strip_first strip_last check_segments is_bad is_control Text-discrete object
    loaded Table.get
put_example =
    put-Put mem_cas object Fine mem_cas-CasLaws head_codec back key key refl fs
      (fs-IsWellFormed, omega arith) (some (old, hex16 2)) (old, refl, refl) new
      (if_match (hex16 2)) (encoded new) refl

-- A write through a file of the HEAD object.
after_example : IsWellFormed (
    after
      (write_call
        (record { entry = 0; allow_read = true; allow_write = true; truncated = false })
        (codes "x"))
      fs)
after_example =
    after-IsWellFormed fs fs-IsWellFormed (omega arith)
      (write_call (record { entry = 0; allow_read = true; allow_write = true; truncated = false })
        (codes "x"))
      (omega arith)
