-- ===== src/Kernel.antt =====
-- What the two kernel modules get from the kernel while they load and unload. The kernel's calls are
-- not part of the repository: what they answer is an argument of each model, and here is what a call
-- takes or gives back, as the kernel documents it.
use rpi_cpu_emulator_linux_d.Base.{
  ◌⊎◌, inl, inr, ◌≡◌, refl, ℤ, pos, Bool, true, false, List, [], ◌∷◌, ◌++◌, ◌==◌, if◌then◌else◌,
}

-- The three interrupt lines, and what a character device is made of.
pub data Resource : Type 0 where
  run_line pause_line step_line region cdev class device : Resource

-- What is held, and what was given back without being held, in order.
pub record Held : Type 0 where
  pub run_line : Bool
  pub pause_line : Bool
  pub step_line : Bool
  pub region : Bool
  pub cdev : Bool
  pub class : Bool
  pub device : Bool
  pub over_released : List Resource

abbrev pub nothing_held : Held
nothing_held = record {
  run_line = false;
  pause_line = false;
  step_line = false;
  region = false;
  cdev = false;
  class = false;
  device = false;
  over_released = [];
}

abbrev pub holds : Held → Resource → Bool
holds h Resource.run_line = h.run_line
holds h Resource.pause_line = h.pause_line
holds h Resource.step_line = h.step_line
holds h Resource.region = h.region
holds h Resource.cdev = h.cdev
holds h Resource.class = h.class
holds h Resource.device = h.device

abbrev pub with_hold : Resource → Bool → Held → Held
with_hold Resource.run_line b h = record h { run_line = b }
with_hold Resource.pause_line b h = record h { pause_line = b }
with_hold Resource.step_line b h = record h { step_line = b }
with_hold Resource.region b h = record h { region = b }
with_hold Resource.cdev b h = record h { cdev = b }
with_hold Resource.class b h = record h { class = b }
with_hold Resource.device b h = record h { device = b }

-- How a part of an initialisation ends: it goes on, returns a status, or writes through a bad pointer.
pub data Result (A : Type 0) : Type 0 where
  ok : A → Held → Result A
  err : ℤ → Held → Result A
  oops : Result A

abbrev pub Action : Type 0 → Type 0
Action A = Held → Result A

infixl 5 ◌>>=◌ ◌>>◌
abbrev pub ◌>>=◌ : {A B : Type 0} → Action A → (A → Action B) → Action B
◌>>=◌ m f h = elim (m h) [ ok a h' ↦ f a h' | err status h' ↦ err status h' | oops ↦ oops ]

abbrev pub ◌>>◌ : {A B : Type 0} → Action A → Action B → Action B
m >> k = m >>= λ _. k

abbrev pub pure : {A : Type 0} → A → Action A
pure a h = ok a h

abbrev pub raise : {A : Type 0} → ℤ → Action A
raise status h = err status h

abbrev pub fault : {A : Type 0} → Action A
fault h = oops

abbrev pub acquire : Resource → Action (Unit {0})
acquire r h = ok tt (with_hold r true h)

abbrev pub release : Resource → Action (Unit {0})
release r h = ok tt (
    if holds h r
    then with_hold r false h
    else record h { over_released = h.over_released ++ r ∷ [] })

abbrev pub release_all : List Resource → Action (Unit {0})
release_all [] = pure tt
release_all (r ∷ rs) = release r >> release_all rs

-- `if (status)`
abbrev pub is_zero : ℤ → Bool
is_zero (pos n) = n == 0
is_zero _ = false

-- What a call that creates an object returns: NULL, an error pointer, or the object.
pub data Pointer : Type 0 where
  null : Pointer
  error_pointer : ℤ → Pointer
  valid : Pointer

pub Pointer-cases : (p : Pointer) → (p ≡ null) ⊎ (((st : ℤ) × (p ≡ error_pointer st)) ⊎ (p ≡ valid))
Pointer-cases null = inl refl
Pointer-cases (error_pointer st) = inr (inl (st, refl))
Pointer-cases valid = inr (inr refl)

-- What the calls for a character device answer.
pub record ChrdevEnv : Type 0 where
  pub alloc_region : ℤ
  pub cdev_add : ℤ
  pub class_create : Pointer
  pub device_create : Pointer

-- A step that goes on, fails, or faults, before the rest.
module _ {A : Type 0} (m : Action (Unit {0})) (k : Action A) (h : Held) where
  pub then_ok : {h' : Held} → m h ≡ ok tt h' → (m >> k) h ≡ k h'
  then_ok e = rw (e, ◌>>=◌) refl

  pub then_err : {h' : Held} {st : ℤ} → m h ≡ err st h' → (m >> k) h ≡ err st h'
  then_err e = rw (e, ◌>>=◌) refl

  pub then_oops : m h ≡ oops → (m >> k) h ≡ oops
  then_oops e = rw (e, ◌>>=◌) refl
