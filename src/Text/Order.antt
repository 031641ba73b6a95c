-- ===== src/Text/Order.antt =====
-- `str_lt`, the order in which the program sorts by texts, is a strict total order.
use Prim.Native.String.{[], ◌∷◌}
use model_interface_gateway.Base.{String, ◌≡◌, refl, true, false, arith}
use model_interface_gateway.Text.{str_lt}

pub str_lt_irrefl : (s : String) → str_lt s s ≡ false
unfolding str_lt
str_lt_irrefl [] = refl
str_lt_irrefl (c ∷ s) = ground (arith, str_lt_irrefl s)

pub str_lt_asymm : (s t : String) → str_lt s t ≡ true → str_lt t s ≡ false
unfolding str_lt
str_lt_asymm [] (d ∷ t) h = refl
str_lt_asymm [] [] h = refl
str_lt_asymm (c ∷ s) [] h = cc
str_lt_asymm (c ∷ s) (d ∷ t) h = ground (arith, str_lt_asymm s t)

-- Not greater, then not greater, is not greater.
pub str_le_trans : (s t u : String) → str_lt t s ≡ false → str_lt u t ≡ false → str_lt u s ≡ false
unfolding str_lt
str_le_trans [] [] [] h k = refl
str_le_trans [] [] (e ∷ u) h k = refl
str_le_trans [] (d ∷ t) [] h k = refl
str_le_trans [] (d ∷ t) (e ∷ u) h k = refl
str_le_trans (c ∷ s) [] u h k = cc
str_le_trans (c ∷ s) (d ∷ t) [] h k = cc
str_le_trans (c ∷ s) (d ∷ t) (e ∷ u) h k = ground (arith, str_le_trans s t u)
