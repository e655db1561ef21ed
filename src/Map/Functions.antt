-- ===== src/Map/Functions.antt =====
-- A concrete `KeyMap`: a map as a function.
use nginx_toolkit_module.Base.{ℕ, refl, false, Option, none, ◌==◌, if◌then◌else◌}
use nginx_toolkit_module.Map.UintMap.{KeyMap}
use nginx_toolkit_module.Map.Insert.{kept}

abbrev pub functions : KeyMap ℕ
functions = record {
  Repr = ℕ → Option ℕ;
  init = λ k. none;
  find = λ f k. f k;
  insert = λ f k v j. if j == k then kept false v (f k) else f j;
  delete = λ f k j. if j == k then none else f j;
  find-init = λ k. refl;
  find-insert = λ f k v j. refl;
  find-delete = λ f k j. refl;
}
