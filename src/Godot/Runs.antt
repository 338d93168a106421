-- ===== src/Godot/Runs.antt =====
-- Runs of the Godot plugin's readers on short inputs.
use gta.Base.{◌≡◌, refl, true, some, [], ◌∷◌, ascii}
use gta.Godot.Buffer.{got, fails, negsuc}
use gta.Godot.Values.{int}
use gta.Godot.Variant.{decode_variant_arg}
use gta.Godot.Half.{half_to_single}
use gta.Godot.Blocks.{whole}
use gta.Godot.Texts.{index_http_header, looks_like_http, after_last_slash}
use gta.Godot.Examples.{terse}

-- 1.0 and the largest subnormal, which comes out as half of what it is.
half_one : half_to_single 15360 ≡ 1065353216
unfolding half_to_single
half_one = refl

-- A compressed integer in two bytes.
short_int : decode_variant_arg terse (whole (66 ∷ (254 ∷ (255 ∷ [])))) 4 0 ≡ got (int (negsuc 1)) 3
unfolding decode_variant_arg
short_int = refl

-- A float that is cut off.
cut_float : decode_variant_arg terse (whole (3 ∷ (0 ∷ (0 ∷ (0 ∷ (1 ∷ [])))))) 4 0 ≡ fails
unfolding decode_variant_arg
cut_float = refl

header_end : index_http_header (71 ∷ (13 ∷ (10 ∷ (13 ∷ (10 ∷ (9 ∷ [])))))) ≡ some 5
unfolding index_http_header
header_end = refl

is_http : looks_like_http (ascii "GET / HTTP/1.1") ≡ true
unfolding looks_like_http ascii
is_http = refl

last_part : after_last_slash (ascii "root/a/b") ≡ some (ascii "b")
unfolding after_last_slash ascii
last_part = refl
