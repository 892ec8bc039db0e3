-- ===== src/Prelude/Text.antt =====
-- Texts as keys: the library's test under a name of its own, and maps that are functions of a key.
use Prim.Native.String.{String}
use mathlib.Core.Path.{◌≡◌}
use mathlib.Core.Logic.{◌↔◌}
use mathlib.Core.Bool.{Bool, true}
use mathlib.Core.List.{List}
use text.Mathlib.Text
use text.Mathlib.TextEquality
use text.Mathlib.TextPositions
use llama_swap_macos_extende.Prelude.Tests.{if◌then◌else◌}
use llama_swap_macos_extende.Prelude.Lists.{any}

abbrev pub str_eq : String → String → Bool
str_eq s t = Text.◌==◌ s t

pub str_eq_iff : (s t : String) → (str_eq s t ≡ true) ↔ (s ≡ t)
str_eq_iff s t = TextEquality.eq_iff s t

pub str_eq_refl : (s : String) → str_eq s s ≡ true
str_eq_refl s = TextPositions.eq_refl s

-- A Go map with a zero value for the keys that it lacks; an update replaces one key.
abbrev pub update {ℓ} : {V : Type ℓ} → (String → V) → String → V → String → V
update m k v j = if str_eq j k then v else m j

abbrev pub contains_string : List String → String → Bool
contains_string xs s = any (λ x. str_eq x s) xs
