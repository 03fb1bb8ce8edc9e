-- ===== src/Syscall/Numbers.antt =====
-- src/syscall.rs: numbers and their calls.
use native.Mathlib.Decide.{ℕ_discrete}
use delta_os.Base.{
  ℕ, ◌≡◌, ◌≢◌, refl, ap, sym, ◌∙◌, if◌then◌else◌, if_elim, ==_iff, ◌⊎◌, inl, inr, ◌==◌,
}
use delta_os.Syscall.{
  SyscallNumber, read, write, open_file, close, seek, stat, mkdir, unlink, getdents, mount, umount,
  clone, exit, waitpid, getpid, yield_cpu, mmap, munmap, print, readline, sysinfo, number, from,
}

back : (s : SyscallNumber) → from (number s) ≡ s
unfolding from number
back read = refl
back write = refl
back open_file = refl
back close = refl
back seek = refl
back stat = refl
back mkdir = refl
back unlink = refl
back getdents = refl
back mount = refl
back umount = refl
back clone = refl
back exit = refl
back waitpid = refl
back getpid = refl
back yield_cpu = refl
back mmap = refl
back munmap = refl
back print = refl
back readline = refl
back sysinfo = refl

Forth : ℕ → SyscallNumber → Type 0
Forth v n = (number n ≡ v) ⊎ (n ≡ read)

-- A chain of tests ends at the call with the number, or at `read`.
test :
    (v k : ℕ) (n m : SyscallNumber) → number n ≡ k → Forth v m → Forth v (if v == k then n else m)
unfolding Forth
test v k n m e f = if_elim (Forth v) (v == k) (λ h. inl (e ∙ sym ((==_iff _ _).0 h))) (λ h. f)

forth : (v : ℕ) → Forth v (from v)
unfolding from number Forth
forth v = test v 0 read _ refl (
    test v 1 write _ refl (
      test v 2 open_file _ refl (
        test v 3 close _ refl (
          test v 4 seek _ refl (
            test v 5 stat _ refl (
              test v 6 mkdir _ refl (
                test v 7 unlink _ refl (
                  test v 8 getdents _ refl (
                    test v 10 mount _ refl (
                      test v 11 umount _ refl (
                        test v 20 clone _ refl (
                          test v 21 exit _ refl (
                            test v 22 waitpid _ refl (
                              test v 23 getpid _ refl (
                                test v 24 yield_cpu _ refl (
                                  test v 30 mmap _ refl (
                                    test v 31 munmap _ refl (
                                      test v 100 print _ refl (
                                        test v 101 readline _ refl
                                          (test v 200 sysinfo _ refl (inr refl)))))))))))))))))))))

-- `from` takes the number of a call back to the call, and any number of no call to `read`.
pub from-number :
    ((s : SyscallNumber) → from (number s) ≡ s)
    × ((v : ℕ) → (number (from v) ≡ v) ⊎ ((from v ≡ read) × ((s : SyscallNumber) → number s ≢ v)))
unfolding Forth
from-number = (
  back,
  λ v. elim (forth v) [
    | inl e ↦ inl e
    | inr e ↦ elim (ℕ_discrete (number (from v)) v) [
      | yes q ↦ inl q
      | no ne ↦ inr (e, λ s q. ne (ap (λ k. number (from k)) (sym q) ∙ ap number (back s) ∙ q))
    ]
  ],
)
