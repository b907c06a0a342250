-- ===== src/Interface/Maps.antt =====
-- The maps of an interface as association lists, src/PrevirtualizeInterfaces.cpp.
use occam.Base.{◌≡◌, refl, some, List, [], ◌∷◌, Name, name_eq, name_eq_iff, arith, if◌then◌else◌}
use occam.Interface.{find, put}

module _ {ℓ} {V : Type ℓ} where
  pub find-put :
      (f g : Name) (v : V) (m : List (Name × V))
      → find g (put f v m) ≡ (if name_eq f g then some v else find g m)
  unfolding find put
  find-put f g v [] = refl
  find-put f g v ((h, w) ∷ m) =
      ground (arith, name_eq_iff f g, name_eq_iff h f, name_eq_iff h g, find-put f g v m)
