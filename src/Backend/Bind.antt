-- ===== src/Backend/Bind.antt =====
-- Taking a chain of operations apart: each part of a chain that succeeded has succeeded.
use pwdtt.Prelude.{Result, ok, err, ◌≡◌, refl}
use pwdtt.Backend.{Backend, BackendError, M, ◌>>=◌}

bind_parts :
    {A B : Type 0} (p : Result BackendError A × Backend) (f : A → M B) {v : B} {b' : Backend}
    → (let r : Result BackendError B × Backend = elim p.0 [
      | ok a ↦ f a p.1
      | err e ↦ (err e, p.1)
    ] in
        r)
      ≡ (ok v, b')
    → (a : A) × (b₁ : Backend) × (p ≡ (ok a, b₁)) × (f a b₁ ≡ (ok v, b'))
bind_parts (ok a, b₁) f h = (a, b₁, refl, h)
bind_parts (err e, b₁) f h = cc

pub >>=-eq-ok :
    {A B : Type 0} (m : M A) (f : A → M B) (b : Backend) {v : B} {b' : Backend}
    → (m >>= f) b ≡ (ok v, b')
    → (a : A) × (b₁ : Backend) × (m b ≡ (ok a, b₁)) × (f a b₁ ≡ (ok v, b'))
>>=-eq-ok m f b h = bind_parts (m b) f h
