-- ===== src/Json/Laws.antt =====
-- Reading back what was put into a dict.
use aot_drone.Common.{String, ◌≡◌, refl, if◌then◌else◌, some, str_eq, eq_iff, arith}
use aot_drone.Json.{Value, Fields, end, field, get, put}

module _ {F : Type 0} where
  pub get-put :
      (k j : String) (v : Value F) (d : Fields F)
      → get j (put k v d) ≡ (if str_eq k j then some v else get j d)
  unfolding get put
  get-put k j v end = refl
  get-put k j v (field i w d) = ground (arith, eq_iff k j, eq_iff i k, eq_iff i j, get-put k j v d)
