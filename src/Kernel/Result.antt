-- ===== src/Kernel/Result.antt =====
-- src/lib.rs: `KernelError` and `KernelResult`, with the chain of fallible steps that `?` is.
use delta_os.Base.{Option, none, some, Bool, true, false}

pub data KernelError : Type 0 where
  out_of_memory invalid_address page_not_mapped page_already_mapped invalid_argument : KernelError
  device_not_found file_system_not_found file_not_found io_error module_not_found : KernelError
  access_denied general_fault : KernelError

pub data KernelResult {ℓ} (A : Type ℓ) : Type ℓ where
  ok : A → KernelResult A
  err : KernelError → KernelResult A

infixl 5 ◌>>=◌ ◌>>◌
abbrev pub ◌>>=◌ {ℓ κ} :
    {A : Type ℓ} {B : Type κ} → KernelResult A → (A → KernelResult B) → KernelResult B
ok a >>= f = f a
err e >>= f = err e

abbrev pub ◌>>◌ {ℓ} : {B : Type ℓ} → KernelResult (Unit {0}) → KernelResult B → KernelResult B
m >> k = m >>= λ _. k

-- `Option::ok_or`
abbrev pub ok_or {ℓ} : {A : Type ℓ} → Option A → KernelError → KernelResult A
ok_or none e = err e
ok_or (some a) e = ok a

abbrev pub guard : Bool → KernelError → KernelResult (Unit {0})
guard true e = ok tt
guard false e = err e
