-- ===== src/AppError.antt =====
-- platform/apperror/error.go, and the results of fallible code.
use golang_cms.Prelude.{String, Bool, true, false, ◌≡◌, refl, if◌then◌else◌}

pub data Kind : Type 0 where
  invalid_argument unauthenticated permission_denied not_found conflict unavailable : Kind
  payload_too_large too_many_requests method_not_allowed internal : Kind

-- `apperror.Error`: the kind and the code, which a client sees. Messages are not modelled.
-- `deadlock` stands for a MySQL error 1213, which the transaction runner tests for, `failure` for
-- every other error that is no `apperror.Error`.
pub data Error : Type 0 where
  app : Kind → String → Error
  deadlock : Error
  failure : Error

pub data Result {ℓ} (A : Type ℓ) : Type ℓ where
  ok : A → Result A
  err : Error → Result A

infixl 5 ◌>>=◌ ◌>>◌
abbrev pub ◌>>=◌ {ℓ κ} : {A : Type ℓ} {B : Type κ} → Result A → (A → Result B) → Result B
ok a >>= f = f a
err e >>= f = err e

abbrev pub ◌>>◌ {ℓ κ} : {A : Type ℓ} {B : Type κ} → Result A → Result B → Result B
m >> k = m >>= λ _. k

abbrev pub guard : Bool → Error → Result (Unit {0})
guard true e = ok tt
guard false e = err e

-- `notFound`, `conflict` and `validationErrors.err` of internal/content/errors.go.
abbrev pub resource_not_found : Error
resource_not_found = app not_found "resource_not_found"

abbrev pub conflicting : String → Error
conflicting code = app conflict code

abbrev pub validation_failed : Error
validation_failed = app invalid_argument "validation_failed"

-- What a successful bind says of its parts.
pub ok-bind {ℓ κ μ} :
    {A : Type ℓ} {B : Type κ} {C : Type μ} (m : Result A) (f : A → Result B) {b : B}
    → (m >>= f) ≡ ok b
    → ((a : A) → m ≡ ok a → f a ≡ ok b → C)
    → C
ok-bind (ok a) f h k = k a refl h
ok-bind (err e) f h k = absurd (cc)

pub ok-guard {ℓ κ} :
    {B : Type ℓ} {C : Type κ} (t : Bool) (e : Error) (m : Result B) {b : B}
    → (guard t e >> m) ≡ ok b
    → (t ≡ true → m ≡ ok b → C)
    → C
ok-guard true e m h k = k refl h
ok-guard false e m h k = absurd (cc)

pub ok-if {ℓ} :
    {A : Type ℓ} (t : Bool) (x y : A) (e : Error)
    → (if t then ok x else err e) ≡ ok y
    → (t ≡ true) × (x ≡ y)
ok-if true x y e h = (refl, cc)
ok-if false x y e h = absurd (cc)

pub ok-unless {ℓ} :
    {A : Type ℓ} (t : Bool) (x y : A) (e : Error)
    → (if t then err e else ok x) ≡ ok y
    → (t ≡ false) × (x ≡ y)
ok-unless true x y e h = absurd (cc)
ok-unless false x y e h = (refl, cc)
