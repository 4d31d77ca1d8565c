-- ===== src/Gpu.antt =====
-- The statuses and errors of include/fluxcap/gpu.hpp, and fallible calls as values. The text of an
-- error is left out.
use fluxcap.Prelude.{ℕ, Bool, true, false, not, ◌≡◌, ◌↔◌, ◌⊎◌, inl, inr, refl}

pub data GpuStatus : Type 0 where
  ok invalid_argument unsupported out_of_memory timeout device_lost system_error : GpuStatus

-- `hresult` is the bit pattern of the `HRESULT`.
pub record GpuError : Type 0 where
  pub status : GpuStatus
  pub hresult : ℕ

abbrev pub make_error : GpuStatus → ℕ → GpuError
make_error s h = record { status = s; hresult = h }

-- `explicit operator bool`.
unfoldable pub is_ok : GpuError → Bool
is_ok e = elim (e.status) [ ok ↦ true | _ ↦ false ]

abbrev pub success : GpuError
success = make_error ok 0

abbrev pub e_invalidarg : ℕ
e_invalidarg = 0x80070057

abbrev pub e_unexpected : ℕ
e_unexpected = 0x8000FFFF

abbrev pub e_abort : ℕ
e_abort = 0x80004004

abbrev pub e_notimpl : ℕ
e_notimpl = 0x80004001

-- `HRESULT_FROM_WIN32` of `WAIT_TIMEOUT` and of `ERROR_NOT_FOUND`.
abbrev pub wait_timeout : ℕ
wait_timeout = 0x80070102

abbrev pub not_found : ℕ
not_found = 0x80070490

abbrev pub invalid : GpuError
invalid = make_error invalid_argument e_invalidarg

abbrev pub misused : GpuError
misused = make_error invalid_argument e_unexpected

abbrev pub timeout_error : GpuError
timeout_error = make_error timeout wait_timeout

-- What a call returns with its output: the output is read only after a success.
pub data Result {ℓ} (A : Type ℓ) : Type ℓ where
  value : A → Result A
  error : GpuError → Result A

infixl 5 ◌>>=◌ ◌>>◌
abbrev pub ◌>>=◌ {ℓ κ} : {A : Type ℓ} {B : Type κ} → Result A → (A → Result B) → Result B
value a >>= f = f a
error e >>= f = error e

abbrev pub ◌>>◌ {ℓ} : {B : Type ℓ} → Result (Unit {0}) → Result B → Result B
m >> k = m >>= λ _. k

-- The early return of `e` when the test of a guard holds.
abbrev pub refuse : Bool → GpuError → Result (Unit {0})
refuse true e = error e
refuse false e = value tt

-- What a chain of guards that succeeds has gone through.
pub refuse_iff {ℓ} :
    {B : Type ℓ} (t : Bool) (e : GpuError) (k : Result B) {b : B}
    → ((refuse t e >> k) ≡ value b) ↔ ((t ≡ false) × (k ≡ value b))
refuse_iff true e k = (λ h. cc, λ h. cc)
refuse_iff false e k = (λ h. (refl, h), λ h. h.1)

pub >>=-eq-value {ℓ κ} :
    {A : Type ℓ} {B : Type κ} (m : Result A) (f : A → Result B) {b : B}
    → (m >>= f) ≡ value b
    → (a : A) × (m ≡ value a) × (f a ≡ value b)
>>=-eq-value (value a) f h = (a, refl, h)
>>=-eq-value (error e) f h = cc

pub refuse_value : (t : Bool) (e : GpuError) → (refuse t e ≡ value tt) ↔ (t ≡ false)
refuse_value true e = (λ h. cc, λ h. cc)
refuse_value false e = (λ _. refl, λ _. refl)

pub not-false : (b : Bool) → (not b ≡ false) ↔ (b ≡ true)
not-false true = (λ _. refl, λ _. refl)
not-false false = (λ h. cc, λ h. cc)

pub Result-cases {ℓ} :
    {A : Type ℓ} (r : Result A) → ((e : GpuError) × (r ≡ error e)) ⊎ ((a : A) × (r ≡ value a))
Result-cases (error e) = inl (e, refl)
Result-cases (value a) = inr (a, refl)
