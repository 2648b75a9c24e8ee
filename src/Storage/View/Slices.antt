-- ===== src/Storage/View/Slices.antt =====
-- Reading a gapless log index by index is reading the slice of it.
use riteraft_ng.Prelude.{
  ℕ, zero, suc, ◌+◌, ◌<◌, ◌≡◌, refl, sym, Option, none, some, List, [], ◌∷◌, ◌++◌, arith,
}
use riteraft_ng.Proto.{Entry}
use riteraft_ng.Storage.View.{entry_at, IsLog}
use riteraft_ng.Storage.View.Entries.{IsLog-none}
use riteraft_ng.Storage.Spec.{slice}

abbrev pub some_of : Option Entry → List Entry
some_of none = []
some_of (some e) = e ∷ []

-- `for idx in low..low + n`, passing over the indices without an entry.
unfoldable pub pick : ℕ → ℕ → List Entry → List Entry
pick zero low es = []
pick (suc n) low es = some_of (entry_at low es) ++ pick n (low + 1) es

slice_above :
    (g low high : ℕ) (es : List Entry)
    → IsLog g es
    → low < g
    → slice low high es ≡ slice (low + 1) high es
slice_above g low high [] l h = refl
slice_above g low high (x ∷ xs) l h = ground (arith, slice_above (g + 1) low high xs l.1)

slice_step :
    (f low high : ℕ) (es : List Entry)
    → IsLog f es
    → low < high
    → slice low high es ≡ some_of (entry_at low es) ++ slice (low + 1) high es
unfolding entry_at
slice_step f low high [] l h = refl
slice_step f low high (x ∷ xs) l h = ground (
  arith,
  slice_step (f + 1) low high xs l.1,
  slice_above (f + 1) low high xs l.1,
  IsLog-none low (f + 1) xs l.1,
)

slice_empty : (low : ℕ) (es : List Entry) → slice low low es ≡ []
slice_empty low [] = refl
slice_empty low (x ∷ xs) = ground (arith, slice_empty low xs)

pub pick-slice :
    (n f low high : ℕ) (es : List Entry)
    → IsLog f es
    → low + n ≡ high
    → pick n low es ≡ slice low high es
unfolding pick
pick-slice zero f low high es l h =
    let e : low ≡ high = omega arith in rw (← e) (sym (slice_empty low es))
pick-slice (suc n) f low high es l h =
    rw (slice_step f low high es l (omega arith), pick-slice n f (low + 1) high es l (omega arith))
