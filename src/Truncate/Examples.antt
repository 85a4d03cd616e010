-- ===== src/Truncate/Examples.antt =====
-- cmux/src/model/workspace.rs: tests of `truncate_str`.
use cmux_gtk.Prelude.{◌≡◌, refl, [], ◌∷◌}
use cmux_gtk.Truncate.{truncate_str}
use cmux_gtk.Truncate.Prefix.{IsLongest, truncate_str_lem}

-- A character of two bytes is not split.
cut_before : truncate_str (0x61 ∷ 0xe9 ∷ 0x62 ∷ []) 2 ≡ 0x61 ∷ []
unfolding truncate_str
cut_before = refl

truncate_str_lem_example :
    IsLongest 2 (0x61 ∷ 0xe9 ∷ 0x62 ∷ []) (truncate_str (0x61 ∷ 0xe9 ∷ 0x62 ∷ []) 2)
truncate_str_lem_example = truncate_str_lem (0x61 ∷ 0xe9 ∷ 0x62 ∷ []) 2
