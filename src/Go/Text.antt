-- ===== src/Go/Text.antt =====
-- Texts as lists of code points, and what the program uses of `strings`.
use Prim.Native.Char.{code}
use Prim.Native.String.{String}
use nomad_firehose.Base.{ℕ, Bool, true, false, ◌&&◌, ◌||◌, List, [], ◌∷◌, ◌++◌, ◌==◌, if◌then◌else◌}
use nomad_firehose.Go.Value.{Bytes}

abbrev pub codes : String → Bytes
codes String.[] = []
codes (String.◌∷◌ c s) = code c ∷ codes s

unfoldable pub has_prefix : Bytes → Bytes → Bool
has_prefix s [] = true
has_prefix [] (p ∷ ps) = false
has_prefix (c ∷ s) (p ∷ ps) = c == p && has_prefix s ps

-- `strings.Contains(s, part)`.
unfoldable pub contains : Bytes → Bytes → Bool
unfolding has_prefix
contains [] part = has_prefix [] part
contains (c ∷ s) part = has_prefix (c ∷ s) part || contains s part

-- `strings.Split(s, sep)` for a separator of one character.
split_from : Bytes → Bytes → ℕ → List Bytes
split_from cur [] sep = cur ∷ []
split_from cur (c ∷ s) sep =
    let closed = cur ∷ split_from [] s sep in
    let longer = split_from (cur ++ c ∷ []) s sep in if c == sep then closed else longer

unfoldable pub split : Bytes → ℕ → List Bytes
unfolding split_from
split s sep = split_from [] s sep
