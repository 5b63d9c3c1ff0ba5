-- ===== src/Common/Text.antt =====
-- Strings put together from pieces.
use araquanid.Common.{◌∷◌, [], List, String, Bool, true, false}
use Prim.Native.String as Text
use Prim.Native.Nat.{Ordering}
use text.Mathlib.TextEquality.{path_by_compare}
use text.Mathlib.TextPositions.{compare_refl}
use mathlib.Core.Path.{◌≡◌, refl}

abbrev pub concat : List String → String
concat [] = ""
concat (s ∷ ss) = Text.◌++◌ s (concat ss)

-- `strings.Join`
abbrev pub join : List String → String → String
join [] sep = ""
join (s ∷ []) sep = s
join (s ∷ t ∷ ss) sep = Text.◌++◌ s (Text.◌++◌ sep (join (t ∷ ss) sep))

-- `s == t`
abbrev pub same_text : String → String → Bool
same_text s t = elim (Text.compare s t) [ Ordering.eq ↦ true | _ ↦ false ]

pub same_text_refl : (s : String) → same_text s s ≡ true
same_text_refl s = rw (compare_refl s, same_text) refl

is_eq-true :
    (o : Ordering)
    → (elim o as (λ x. Bool) [ Ordering.eq ↦ true | _ ↦ false ]) ≡ true
    → o ≡ Ordering.eq
is_eq-true Ordering.lt h = cc
is_eq-true Ordering.eq h = refl
is_eq-true Ordering.gt h = cc

pub same_text-true : (s t : String) → same_text s t ≡ true → s ≡ t
same_text-true s t h = path_by_compare s t (is_eq-true (Text.compare s t) h)
