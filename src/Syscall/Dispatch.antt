-- ===== src/Syscall/Dispatch.antt =====
-- src/syscall.rs: what each call returns and prints.
use delta_os.Base.{
  ℕ, zero, suc, ◌+◌, ◌-◌, ◌%◌, ◌≡◌, ◌≢◌, refl, ap, sym, ◌⊎◌, inl, inr, Option, none, some, List, [],
  ◌∷◌, All, subst, ◌++◌, arith, length, Bool-cases, ◌||◌, ◌==◌,
}
use mathlib.Core.List.{append-nil}
use delta_os.Base.Word.{u64_mod}
use delta_os.Syscall.Numbers.{from-number}
use delta_os.Syscall.{
  number, SyscallNumber, read, write, open_file, close, seek, stat, mkdir, unlink, getdents, mount,
  umount, clone, exit, waitpid, getpid, yield_cpu, mmap, munmap, print, readline, sysinfo, from,
  bytes, serve, finish, result_word, rust_syscall_handler,
}

pub length-bytes : (mem : ℕ → ℕ) (addr count : ℕ) → length (bytes mem addr count) ≡ count
unfolding bytes
length-bytes mem addr zero = refl
length-bytes mem addr (suc count) = ap suc (length-bytes mem (addr + 1) count)

-- The word of -EIO.
abbrev pub io_error_word : ℕ
io_error_word = u64_mod - 5

-- A word is returned, and bytes are printed behind what the screen shows.
abbrev pub Prints : Option (ℕ × List ℕ) → List ℕ → ℕ → List ℕ → Type 0
Prints r screen word out = r ≡ some (word, screen ++ out)

-- The numbers that are answered otherwise than with -EIO.
abbrev pub answered : List ℕ
answered = 1 ∷ 3 ∷ 21 ∷ 23 ∷ 24 ∷ 31 ∷ 100 ∷ []

-- The number is none of these, or that of `write` with a descriptor other than 1 and 2.
abbrev pub IsRefused : ℕ → ℕ → Type 0
IsRefused fd nr = ((nr ≡ 1) × (fd ≢ 1) × (fd ≢ 2)) ⊎ All (λ k. nr ≢ k) answered

module _ (mem : ℕ → ℕ) (screen : List ℕ) (arg1 arg2 arg3 : ℕ) where
  -- What the handler does for a number.
  abbrev pub Answers : ℕ → Option (ℕ × List ℕ) → Type 0
  Answers nr r =
      ((nr ≡ 21) × (r ≡ none))
      ⊎ ((nr ≡ 1)
          × ((arg1 ≡ 1) ⊎ (arg1 ≡ 2))
          × Prints r screen (arg3 % u64_mod) (bytes mem arg2 arg3))
      ⊎ ((nr ≡ 100) × Prints r screen (arg2 % u64_mod) (bytes mem arg1 arg2))
      ⊎ ((nr ≡ 23) × Prints r screen 1 [])
      ⊎ (((nr ≡ 24) ⊎ (nr ≡ 3) ⊎ (nr ≡ 31)) × Prints r screen 0 [])
      ⊎ (IsRefused arg1 nr × Prints r screen io_error_word [])

  silent : {w : ℕ} → Prints (some (w, screen)) screen w []
  silent {w} = ap (λ (xs : List ℕ). some (w, xs)) (sym (append-nil screen))

  refused : (nr : ℕ) → All (λ k. nr ≢ k) answered → Answers nr (some (io_error_word, screen))
  unfolding silent
  refused nr a = inr (inr (inr (inr (inr (inr a, silent)))))

  write_lem : Answers 1 (finish (serve mem screen write arg1 arg2 arg3))
  unfolding finish serve result_word silent
  write_lem = elim (Bool-cases ((arg1 == 1) || (arg1 == 2))) [
    | inl e ↦ inr (inl (refl, ground (arith, e), rw e refl))
    | inr e ↦
        inr (inr (inr (inr (inr (inl (refl, ground (arith, e), ground (arith, e)), rw e silent)))))
  ]

  serve_lem : (n : SyscallNumber) → Answers (number n) (finish (serve mem screen n arg1 arg2 arg3))
  unfolding finish serve result_word number
  serve_lem write = write_lem
  serve_lem read = refused 0 (
    omega arith,
    (omega arith, (omega arith, (omega arith, (omega arith, (omega arith, (omega arith, tt)))))),
  )
  serve_lem open_file = refused 2 (
    omega arith,
    (omega arith, (omega arith, (omega arith, (omega arith, (omega arith, (omega arith, tt)))))),
  )
  serve_lem seek = refused 4 (
    omega arith,
    (omega arith, (omega arith, (omega arith, (omega arith, (omega arith, (omega arith, tt)))))),
  )
  serve_lem stat = refused 5 (
    omega arith,
    (omega arith, (omega arith, (omega arith, (omega arith, (omega arith, (omega arith, tt)))))),
  )
  serve_lem mkdir = refused 6 (
    omega arith,
    (omega arith, (omega arith, (omega arith, (omega arith, (omega arith, (omega arith, tt)))))),
  )
  serve_lem unlink = refused 7 (
    omega arith,
    (omega arith, (omega arith, (omega arith, (omega arith, (omega arith, (omega arith, tt)))))),
  )
  serve_lem getdents = refused 8 (
    omega arith,
    (omega arith, (omega arith, (omega arith, (omega arith, (omega arith, (omega arith, tt)))))),
  )
  serve_lem mount = refused 10 (
    omega arith,
    (omega arith, (omega arith, (omega arith, (omega arith, (omega arith, (omega arith, tt)))))),
  )
  serve_lem umount = refused 11 (
    omega arith,
    (omega arith, (omega arith, (omega arith, (omega arith, (omega arith, (omega arith, tt)))))),
  )
  serve_lem clone = refused 20 (
    omega arith,
    (omega arith, (omega arith, (omega arith, (omega arith, (omega arith, (omega arith, tt)))))),
  )
  serve_lem waitpid = refused 22 (
    omega arith,
    (omega arith, (omega arith, (omega arith, (omega arith, (omega arith, (omega arith, tt)))))),
  )
  serve_lem mmap = refused 30 (
    omega arith,
    (omega arith, (omega arith, (omega arith, (omega arith, (omega arith, (omega arith, tt)))))),
  )
  serve_lem readline = refused 101 (
    omega arith,
    (omega arith, (omega arith, (omega arith, (omega arith, (omega arith, (omega arith, tt)))))),
  )
  serve_lem sysinfo = refused 200 (
    omega arith,
    (omega arith, (omega arith, (omega arith, (omega arith, (omega arith, (omega arith, tt)))))),
  )
  serve_lem close = inr (inr (inr (inr (inl (inr (inl refl), silent)))))
  serve_lem exit = inl (refl, refl)
  serve_lem getpid = inr (inr (inr (inl (refl, silent))))
  serve_lem yield_cpu = inr (inr (inr (inr (inl (inl refl, silent)))))
  serve_lem munmap = inr (inr (inr (inr (inl (inr (inr refl), silent)))))
  serve_lem print = inr (inr (inl (refl, refl)))

  unknown : (nr : ℕ) → ((s : SyscallNumber) → number s ≢ nr) → All (λ k. nr ≢ k) answered
  unfolding number
  unknown nr h = (
    λ e. h write (sym e),
    (
      λ e. h close (sym e),
      (
        λ e. h exit (sym e),
        (
          λ e. h getpid (sym e),
          (λ e. h yield_cpu (sym e), (λ e. h munmap (sym e), (λ e. h print (sym e), tt))),
        ),
      ),
    ),
  )

  -- By the number in `rax`: the handler of system calls never returns for 21, `exit`. For 1, `write`, to
  -- descriptor 1 or 2, and for 100, `print`, it prints the bytes of the buffer and returns their count;
  -- for 23, `getpid`, it returns 1, and for 24, 3 and 31, `yield`, `close` and `munmap`, 0. For
  -- `write` to another descriptor and for every other number, of a call or not, it returns the word
  -- of -EIO. Only the first two print.
  pub rust_syscall_handler_lem :
      (nr : ℕ) → Answers nr (rust_syscall_handler mem screen nr arg1 arg2 arg3)
  unfolding rust_syscall_handler result_word
  rust_syscall_handler_lem nr = elim (from-number.1 nr) [
    | inl e ↦
        subst (λ v. Answers v (finish (serve mem screen (from nr) arg1 arg2 arg3))) e
          (serve_lem (from nr))
    | inr (e, h) ↦ rw e (refused nr (unknown nr h))
  ]

  -- Every call but `exit` returns.
  pub rust_syscall_handler-some :
      (nr : ℕ)
      → nr ≢ 21
      → (word : ℕ) × (shown : List ℕ) × (rust_syscall_handler mem screen nr arg1 arg2 arg3
          ≡ some (word, shown))
  rust_syscall_handler-some nr ne = elim (rust_syscall_handler_lem nr) [
    | inl (e, _) ↦ absurd (ne e)
    | inr (inl (_, _, p)) ↦ (_, _, p)
    | inr (inr (inl (_, p))) ↦ (_, _, p)
    | inr (inr (inr (inl (_, p)))) ↦ (_, _, p)
    | inr (inr (inr (inr (inl (_, p))))) ↦ (_, _, p)
    | inr (inr (inr (inr (inr (_, p))))) ↦ (_, _, p)
  ]
