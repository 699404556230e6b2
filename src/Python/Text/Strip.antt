-- ===== src/Python/Text/Strip.antt =====
-- Stripping twice is stripping once, so an identity that was stripped is in its final form.
use Prim.Native.Char.{code}
use polaris_lab.Base.{String, ◌≡◌, refl, ◌&&◌, arith, inl, inr, Bool-cases, str_eq}
use polaris_lab.Python.Text.{is_space, lstrip, rstrip, strip}

rstrip_idem : (s : String) → rstrip (rstrip s) ≡ rstrip s
unfolding rstrip
rstrip_idem String.[] = refl
rstrip_idem (String.◌∷◌ c s) = elim (Bool-cases (is_space (code c) && str_eq (rstrip s) "")) [
  | inl gone ↦ rw gone refl
  | inr kept ↦ rw kept (rw (rstrip_idem s) (rw kept refl))
]

lstrip-rstrip-lstrip : (s : String) → lstrip (rstrip (lstrip s)) ≡ rstrip (lstrip s)
unfolding lstrip rstrip
lstrip-rstrip-lstrip String.[] = refl
lstrip-rstrip-lstrip (String.◌∷◌ c s) = elim (Bool-cases (is_space (code c))) [
  | inl space ↦ rw space (lstrip-rstrip-lstrip s)
  | inr other ↦ ground arith
]

pub strip_idem : (s : String) → strip (strip s) ≡ strip s
unfolding strip
strip_idem s = rw lstrip-rstrip-lstrip (rstrip_idem (lstrip s))
