-- ===== src/Path.antt =====
-- fusio/src/path: paths, on lists of bytes. `percent_encode` is the crate percent-encoding's; the
-- conversions from and to file-system paths and URLs are left out.
pub mod Segments
pub mod Matching
pub mod Canonical
use fusio.Base.{
  ℕ, List, [], ◌∷◌, ◌++◌, Option, none, some, Bool, true, ◌||◌, ◌==◌, ltb, if◌then◌else◌, any, Text,
  ite, Text-discrete, codes, strip_prefix,
}
use fusio.Effect.{Result, ok, err, spent}

-- path/mod.rs: Error, as far as `parse` raises it.
pub data PathError : Type 0 where
  empty_segment bad_segment : PathError

-- DELIMITER
abbrev pub delimiter : ℕ
delimiter = 47

-- `str::split` at the delimiter.
unfoldable pub first_char : ℕ → List Text → List Text
first_char c [] = (c ∷ []) ∷ []
first_char c (s ∷ ss) = (c ∷ s) ∷ ss

unfoldable pub split : Text → List Text
unfolding first_char
split [] = [] ∷ []
split (c ∷ s) = let rest = split s in if c == delimiter then [] ∷ rest else first_char c rest

unfoldable pub strip_first : Text → Text
strip_first [] = []
strip_first (c ∷ s) = if c == delimiter then s else c ∷ s

unfoldable pub strip_last : Text → Text
strip_last [] = []
strip_last (c ∷ []) = if c == delimiter then [] else c ∷ []
strip_last (c ∷ d ∷ s) = c ∷ strip_last (d ∷ s)

-- PathPart::parse
unfoldable pub is_control : ℕ → Bool
is_control c = ltb c 32 || (c == 127)

unfoldable pub is_bad : Text → Bool
unfolding is_control any
is_bad s =
    ite (Text-discrete s (46 ∷ [])) true
      (ite (Text-discrete s (46 ∷ 46 ∷ [])) true (any (λ c. is_control c || (c == delimiter)) s))

unfoldable pub check_segments : List Text → Result PathError Unit
unfolding is_bad
check_segments [] = ok tt
check_segments ([] ∷ ss) = err empty_segment
check_segments ((c ∷ s) ∷ ss) =
    let rest = check_segments ss in if is_bad (c ∷ s) then err bad_segment else rest

unfoldable pub checked : Text → Result PathError Unit → Result PathError Text
checked s (ok _) = ok s
checked s (err e) = err e
checked s spent = spent

unfoldable pub parse_stripped : Text → Result PathError Text
unfolding checked check_segments split strip_last
parse_stripped [] = ok []
parse_stripped (c ∷ s) = checked (strip_last (c ∷ s)) (check_segments (split (strip_last (c ∷ s))))

-- Path::parse; the path is its raw text.
unfoldable pub parse : Text → Result PathError Text
unfolding parse_stripped strip_first
parse s = parse_stripped (strip_first s)

-- `str::split_terminator` at the delimiter: without a last empty segment.
unfoldable pub drop_empty_last : List Text → List Text
drop_empty_last [] = []
drop_empty_last ([] ∷ []) = []
drop_empty_last ((c ∷ s) ∷ []) = (c ∷ s) ∷ []
drop_empty_last (s ∷ t ∷ ss) = s ∷ drop_empty_last (t ∷ ss)

-- Path::parts
unfoldable pub parts : Text → List Text
unfolding split drop_empty_last
parts raw = drop_empty_last (split raw)

unfoldable pub last_of : List Text → Text
last_of [] = []
last_of (s ∷ []) = s
last_of (s ∷ t ∷ ss) = last_of (t ∷ ss)

-- Path::filename
unfoldable pub filename : Text → Option Text
unfolding split last_of
filename [] = none
filename (c ∷ s) = some (last_of (split (c ∷ s)))

-- `rsplit_once('.')`: what stands behind the last dot.
unfoldable pub behind_dot : Text → Option Text
behind_dot [] = none
behind_dot (c ∷ s) = elim (behind_dot s) [
  | some e ↦ some e
  | none ↦ if c == 46 then some s else none
]

unfoldable pub full : Option Text → Option Text
full none = none
full (some []) = none
full (some (c ∷ s)) = some (c ∷ s)

-- Path::extension
unfoldable pub extension : Text → Option Text
unfolding filename behind_dot full
extension raw = elim (filename raw) [ none ↦ none | some f ↦ full (behind_dot f) ]

-- What is left behind the prefix, which has to end where a segment does.
unfoldable pub at_boundary : (prefix rest : Text) → Option Text
at_boundary prefix [] = some []
at_boundary [] (c ∷ s) = some (c ∷ s)
at_boundary (p ∷ ps) (c ∷ s) = if c == delimiter then some s else none

unfoldable pub parts_behind : Option Text → Option (List Text)
unfolding parts
parts_behind none = none
parts_behind (some s) = some (parts s)

unfoldable pub bounded_rest : Text → Option Text → Option Text
unfolding at_boundary
bounded_rest prefix none = none
bounded_rest prefix (some rest) = at_boundary prefix rest

-- Path::prefix_match
unfoldable pub prefix_match : (raw prefix : Text) → Option (List Text)
unfolding strip_prefix bounded_rest parts_behind
prefix_match raw prefix = parts_behind (bounded_rest prefix (strip_prefix prefix raw))

-- Path::child, of a part that is encoded already.
unfoldable pub child : Text → Text → Text
child [] part = part
child (c ∷ s) part = (c ∷ s) ++ (delimiter ∷ part)

-- `join` at the delimiter
unfoldable pub join : List Text → Text
join [] = []
join (s ∷ []) = s
join (s ∷ t ∷ ss) = s ++ (delimiter ∷ join (t ∷ ss))

-- INVALID: the bytes of a part that are encoded; 33 and above, the printable ones of the list.
unfoldable pub is_invalid : ℕ → Bool
unfolding is_control any
is_invalid c = is_control c || any (λ d. d == c) (delimiter ∷ codes "\\{^}%`]\">[~<#|*?")

-- `percent_encode(other, INVALID)`, which encodes the bytes outside ASCII too.
module _ (percent_encode : (ℕ → Bool) → Text → Text) where
  -- PathPart::from
  unfoldable pub part_of : Text → Text
  unfolding is_invalid
  part_of s =
      ite (Text-discrete s (codes ".")) (codes "%2E")
        (ite (Text-discrete s (codes "..")) (codes "%2E%2E") (percent_encode is_invalid s))

  unfoldable pub full_parts : List Text → List Text
  unfolding part_of
  full_parts [] = []
  full_parts (s ∷ ss) =
      let rest = full_parts ss in elim (part_of s) [ [] ↦ rest | c ∷ p ↦ (c ∷ p) ∷ rest ]

  -- Path::from_iter, and Path::from of a text.
  unfoldable pub from_iter : List Text → Text
  unfolding full_parts join
  from_iter ss = join (full_parts ss)

  unfoldable pub from : Text → Text
  unfolding from_iter split
  from s = from_iter (split s)
