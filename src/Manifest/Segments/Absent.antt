-- ===== src/Manifest/Segments/Absent.antt =====
-- What a read of a segment answers over the in-memory file system, on every branch.
use fusio.Base.{ℕ, ◌≡◌, refl, Option, none, some, Bool, Text, codes}
use fusio.Effect.{Result, ok, err}
use fusio.Path.{parse}
use fusio.Memory.{MemFs, object}
use fusio.Manifest.Types.{Error, corrupt}
use fusio.Manifest.InMemory.{mem_cas}
use fusio.Manifest.Files.{mem_files, or_else_corrupt, or_if_corrupt}
use fusio.Manifest.Segments.{key_for, get_with_etag}
use fusio.Manifest.Segments.Stored.{load_key_found, load_key_missing}

-- The payload of the JSON object, or else of the other, or else Corrupt.
abbrev pub first_of : (json bin : Option (Text × Text)) → Result Error (Text × Option Text)
first_of (some (bytes, tag)) bin = ok (bytes, some tag)
first_of none (some (bytes, tag)) = ok (bytes, some tag)
first_of none none = err corrupt

module _ (percent_encode : (ℕ → Bool) → Text → Text) (prefix : Text) (seq : ℕ) (fs : MemFs)
    (json_key : parse (key_for prefix seq (codes ".json"))
      ≡ ok (key_for prefix seq (codes ".json")))
    (bin_key : parse (key_for prefix seq (codes ".bin"))
      ≡ ok (key_for prefix seq (codes ".bin"))) where
  by_objects :
      (j b : Option (Text × Text))
      → object (key_for prefix seq (codes ".json")) fs ≡ j
      → object (key_for prefix seq (codes ".bin")) fs ≡ b
      → get_with_etag (mem_files percent_encode) mem_cas percent_encode prefix seq fs
        ≡ (first_of j b, fs)
  unfolding get_with_etag or_else_corrupt or_if_corrupt
  by_objects (some (bytes, tag)) b e f =
      rw
        (load_key_found percent_encode prefix (key_for prefix seq (codes ".json")) bytes tag fs
          json_key e)
        refl
  by_objects none (some (bytes, tag)) e f =
      rw
        (
          load_key_missing percent_encode prefix (key_for prefix seq (codes ".json")) fs json_key e,
          load_key_found percent_encode prefix (key_for prefix seq (codes ".bin")) bytes tag fs
              bin_key f,
        )
        refl
  by_objects none none e f =
      rw
        (
          load_key_missing percent_encode prefix (key_for prefix seq (codes ".json")) fs json_key e,
          load_key_missing percent_encode prefix (key_for prefix seq (codes ".bin")) fs bin_key f,
        )
        refl

  -- Over the in-memory file system, for a number whose two keys are canonical paths: get_with_etag
  -- answers the payload and the tag of the JSON object, where there is none those of the other, and
  -- where there is neither Corrupt, and changes nothing.
  pub get_with_etag-first_of :
      get_with_etag (mem_files percent_encode) mem_cas percent_encode prefix seq fs ≡ (
        first_of
            (object (key_for prefix seq (codes ".json")) fs)
            (object (key_for prefix seq (codes ".bin")) fs),
        fs,
      )
  get_with_etag-first_of =
      by_objects (object (key_for prefix seq (codes ".json")) fs)
        (object (key_for prefix seq (codes ".bin")) fs) refl refl
