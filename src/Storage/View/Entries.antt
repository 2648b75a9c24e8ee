-- ===== src/Storage/View/Entries.antt =====
-- The log as a map from indices, and when it has no gap.
use riteraft_ng.Prelude.{
  ℕ, ◌+◌, ◌≤◌, ◌<◌, max, ◌≡◌, refl, Option, none, some, List, [], ◌∷◌, arith, ◌==◌, if◌then◌else◌,
  length,
}
use riteraft_ng.Proto.{Entry}
use riteraft_ng.Storage.View.{put_entry, put_entries, entry_at, IsLog}

pub entry_at-put_entry :
    (i : ℕ) (e : Entry) (es : List Entry)
    → entry_at i (put_entry e es) ≡ (if e.index == i then some e else entry_at i es)
unfolding entry_at put_entry
entry_at-put_entry i e [] = refl
entry_at-put_entry i e (x ∷ xs) = ground (arith, entry_at-put_entry i e xs)

abbrev pub or_else {ℓ} : {A : Type ℓ} → Option A → Option A → Option A
or_else none b = b
or_else (some a) b = some a

pub IsLog-none : (i f : ℕ) (es : List Entry) → IsLog f es → i < f → entry_at i es ≡ none
unfolding entry_at
IsLog-none i f [] l h = refl
IsLog-none i f (x ∷ xs) l h = ground (arith, IsLog-none i (f + 1) xs l.1)

-- Writing a gapless run of entries: each index reads the run where it has one, and else what was
-- there before. Entries after the run stay.
pub entry_at-put_entries :
    (i f : ℕ) (ns es : List Entry)
    → IsLog f ns
    → entry_at i (put_entries ns es) ≡ or_else (entry_at i ns) (entry_at i es)
unfolding put_entries
entry_at-put_entries i f [] es l = unfold entry_at in refl
entry_at-put_entries i f (n ∷ ns) es l =
    rw (entry_at-put_entries i (f + 1) ns (put_entry n es) l.1, entry_at-put_entry i n es)
      (unfold entry_at in ground (arith, IsLog-none i (f + 1) ns l.1))

put_entry-IsLog :
    (f : ℕ) (e : Entry) (es : List Entry)
    → IsLog f es
    → f ≤ e.index
    → e.index ≤ f + length es
    → IsLog f (put_entry e es)
unfolding put_entry
put_entry-IsLog f e [] l lo hi = (omega arith, tt)
put_entry-IsLog f e (x ∷ xs) l lo hi = ground (arith, put_entry-IsLog (f + 1) e xs l.1)

length-put_entry :
    (f : ℕ) (e : Entry) (es : List Entry)
    → IsLog f es
    → f ≤ e.index
    → e.index ≤ f + length es
    → f + length (put_entry e es) ≡ max (f + length es) (e.index + 1)
unfolding put_entry
length-put_entry f e [] l lo hi = omega arith
length-put_entry f e (x ∷ xs) l lo hi = ground (arith, length-put_entry (f + 1) e xs l.1)

-- A gapless log stays gapless when a gapless run is written that starts within it or right after it.
pub put_entries-IsLog :
    (f g : ℕ) (ns es : List Entry)
    → IsLog f es
    → IsLog g ns
    → f ≤ g
    → g ≤ f + length es
    → IsLog f (put_entries ns es)
      × (f + length (put_entries ns es) ≡ max (f + length es) (g + length ns))
unfolding put_entries
put_entries-IsLog f g [] es l m lo hi = (l, omega arith)
put_entries-IsLog f g (n ∷ ns) es l m lo hi =
    let here : n.index ≡ g = m.0 in
    let grown = length-put_entry f n es l (omega arith) (omega arith) in
    let rest =
      put_entries-IsLog f (g + 1) ns (put_entry n es)
        (put_entry-IsLog f n es l (omega arith) (omega arith)) m.1 (omega arith) (omega arith) in
    (rest.0, omega arith)
