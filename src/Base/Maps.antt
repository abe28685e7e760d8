-- ===== src/Base/Maps.antt =====
-- Go maps as functions from keys to optional values, where the code never asks for their size.
use Prim.Native.String.{String}
use text.Mathlib.Text.{◌==◌}
use mathlib.Core.Bool.{Bool}
use mathlib.Core.Option.{Option, none, some}
use open_scanner.Base.Tests.{if◌then◌else◌}

-- `map[string]V`: a missing key reads as `none`.
abbrev pub StringMap {ℓ} : Type ℓ → Type ℓ
StringMap V = String → Option V

module _ {ℓ} {V : Type ℓ} where
  -- `m[k] = v`, with `none` for `delete(m, k)`.
  abbrev pub put_at : StringMap V → String → Option V → StringMap V
  put_at m k v j = if k == j then v else m j

  -- `for k, v := range m { if drop(v) { delete(m, k) } }`: each key is decided by its own value.
  abbrev pub drop_if : (V → Bool) → StringMap V → StringMap V
  drop_if gone m k = elim (m k) [ none ↦ none | some v ↦ if gone v then none else some v ]
