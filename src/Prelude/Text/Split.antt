-- ===== src/Prelude/Text/Split.antt =====
-- Splitting at a separator undoes joining, and the other way round.
use Prim.Native.String
use Prim.Native.String.{String, [], ◌∷◌}
use Prim.Native.Char.{Char}
use mathlib.Core.Path.{◌≡◌, refl, ap, ◌∙◌}
use mathlib.Core.List.{List, [], ◌∷◌}
use native.Mathlib.Omega.{arith}
use text.Mathlib.TextLemmas.{nil-append, cons-append}
use dovesnap.Prelude.Tests.{All}
use dovesnap.Prelude.Text.{cut, split, join, Lacks}

module _ (sep : Char) where
  cut_of_Lacks : (s : String) → Lacks sep s → cut sep s ≡ (s, [])
  unfolding cut
  cut_of_Lacks [] h = refl
  cut_of_Lacks (c ∷ s) h = ground (arith, cut_of_Lacks s h.1)

  cut-append :
      (p rest : String) → Lacks sep p → cut sep (String.◌++◌ p (sep ∷ rest)) ≡ (p, split sep rest)
  unfolding cut split
  cut-append [] rest h = rw nil-append (ground arith)
  cut-append (c ∷ p) rest h = rw cons-append (ground (arith, cut-append p rest h.1))

  pub split_of_Lacks : (s : String) → Lacks sep s → split sep s ≡ s ∷ []
  unfolding split
  split_of_Lacks s h = rw (cut_of_Lacks s h)

  pub split-append :
      (p rest : String) → Lacks sep p → split sep (String.◌++◌ p (sep ∷ rest)) ≡ p ∷ split sep rest
  split-append p rest h = unfold split in rw (cut-append p rest h)

-- Joining and splitting again, for a list of texts without the separator.
abbrev pub separator : Char → String
separator sep = sep ∷ []

pub split-join :
    (sep : Char) (s : String) (ss : List String)
    → Lacks sep s
    → All (Lacks sep) ss
    → split sep (join (separator sep) (List.◌∷◌ s ss)) ≡ List.◌∷◌ s ss
unfolding join
split-join sep s List.[] h k = split_of_Lacks sep s h
split-join sep s (List.◌∷◌ t ts) h (k, ks) =
    simp (cons-append, nil-append)
      (split-append sep s _ h ∙ ap (List.◌∷◌ s) (split-join sep t ts k ks))

pub Lacks-append :
    (sep : Char) (s t : String) → Lacks sep s → Lacks sep t → Lacks sep (String.◌++◌ s t)
Lacks-append sep [] t h k = rw nil-append k
Lacks-append sep (c ∷ s) t h k = rw cons-append (h.0, Lacks-append sep s t h.1 k)

pub Lacks-join :
    (sep : Char) (glue : String) (ss : List String)
    → Lacks sep glue
    → All (Lacks sep) ss
    → Lacks sep (join glue ss)
unfolding join
Lacks-join sep glue List.[] g h = tt
Lacks-join sep glue (List.◌∷◌ s List.[]) g h = h.0
Lacks-join sep glue (List.◌∷◌ s (List.◌∷◌ t ts)) g h =
    Lacks-append sep s _ h.0 (Lacks-append sep glue _ g (Lacks-join sep glue (List.◌∷◌ t ts) g h.1))

pub split_empty : (sep : Char) → split sep "" ≡ List.◌∷◌ "" List.[]
unfolding split
split_empty sep = refl
