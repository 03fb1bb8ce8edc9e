-- ===== src/Interrupts/Eoi.antt =====
-- src/interrupts.rs: how interrupts are ended, and what a vector's handler changes.
use mathlib.Core.List.{append-nil}
use delta_os.Base.{
  ℕ, ◌-◌, ◌≤◌, ◌<◌, ◌≡◌, ◌≢◌, refl, ap, sym, ◌∙◌, ◌⊎◌, inl, inr, Bool, true, false, ◌&&◌, Option,
  some, List, [], ◌∷◌, ◌++◌, arith, if◌then◌else◌, ltb, leb, ◌==◌, Bool-cases, if_elim, ==_iff,
  ==_ne,
}
use delta_os.Syscall.{rust_syscall_handler}
use delta_os.Syscall.Dispatch.{rust_syscall_handler-some}
use delta_os.Timer.{on_timer_tick}
use delta_os.Timer.Uptime.{on_timer_tick-some}
use delta_os.Keyboard.{Keyboard, handle_keyboard_scancode}
use delta_os.Interrupts.{
  Write, lapic_eoi, outb, InterruptContext, System, eoi_writes, send_eoi, on_timer, on_syscall,
  back_with, dispatch_vector, end_of_irq, rust_isr_handler,
}

-- The vector's handler returns: it is no double fault and no system call 21, `exit`, and the timer's
-- frequency is not 0.
pub record Returns (s : System) (ctx : InterruptContext) : Type 0 where
  pub no_double_fault : ctx.vector ≢ 8
  pub no_exit : (ctx.vector ≢ 128) ⊎ (ctx.rax ≢ 21)
  pub ticking : 0 < s.timer.timer_hz

-- The lines of the interrupt controllers are the vectors from 32 to 47. The local APIC has one write that
-- ends any of them; without it the first PIC has the lines up to 39, and the lines from 40 on are ended
-- at the second and then at the first, to which it is chained.
abbrev pub eois : Bool → ℕ → List Write
eois true vector = if leb 32 vector && ltb vector 48 then lapic_eoi ∷ [] else []
eois false vector =
    if leb 32 vector && ltb vector 40
    then outb 0x20 0x20 ∷ []
    else if leb 40 vector && ltb vector 48
    then outb 0xA0 0x20 ∷ outb 0x20 0x20 ∷ []
    else []

eoi_writes-eois :
    (using_apic : Bool) (vector : ℕ)
    → 32 ≤ vector
    → vector < 48
    → eoi_writes using_apic (vector - 32) ≡ eois using_apic vector
unfolding eoi_writes
eoi_writes-eois true vector h k = ground arith
eoi_writes-eois false vector h k = ground arith

eois-none :
    (using_apic : Bool) (vector : ℕ)
    → (leb 32 vector && ltb vector 48) ≡ false
    → eois using_apic vector ≡ []
eois-none true vector h = ground arith
eois-none false vector h = ground arith

module _ (s : System) (ctx : InterruptContext) (port60 : ℕ) where
  abbrev pub keyboard_after : ℕ → Keyboard
  keyboard_after vector =
      if vector == 33 then handle_keyboard_scancode s.keyboard port60 else s.keyboard

  -- The handler has returned, having written the ends of interrupt that are due, and the keyboard is
  -- as it should be.
  abbrev pub Ended : Option (InterruptContext × System) → Type 0
  Ended r =
      (ctx' : InterruptContext) × (s' : System) × (r ≡ some (ctx', s'))
      × (s'.writes ≡ s.writes ++ eois s.using_apic ctx.vector)
      × (s'.keyboard ≡ keyboard_after ctx.vector)

  -- Nothing is left to end.
  ends_alone :
      (ctx' : InterruptContext) (s' : System)
      → (leb 34 ctx.vector && ltb ctx.vector 48) ≡ false
      → s'.writes ≡ s.writes ++ eois s.using_apic ctx.vector
      → s'.keyboard ≡ keyboard_after ctx.vector
      → Ended (end_of_irq ctx.vector (some (ctx', s')))
  unfolding end_of_irq
  ends_alone ctx' s' e w k = rw e (ctx', s', refl, w, k)

  -- A handler that has left the system as it was, but for messages.
  ends_later :
      (ctx' : InterruptContext) (s' : System)
      → s'.writes ≡ s.writes
      → s'.using_apic ≡ s.using_apic
      → s'.keyboard ≡ s.keyboard
      → ctx.vector ≢ 32
      → ctx.vector ≢ 33
      → Ended (end_of_irq ctx.vector (some (ctx', s')))
  unfolding end_of_irq send_eoi
  ends_later ctx' s' w a k ne ne' = elim (Bool-cases (leb 34 ctx.vector && ltb ctx.vector 48)) [
    | inl e ↦
        let due : eois s.using_apic ctx.vector ≡ eoi_writes s.using_apic (ctx.vector - 32) =
          sym (eoi_writes-eois s.using_apic ctx.vector (ground (arith, e)) (ground (arith, e))) in
        rw (e, due, ==_ne ctx.vector 33 ne') (ctx', _, refl, rw (w, a) refl, k)
    | inr e ↦
        let due : eois s.using_apic ctx.vector ≡ [] =
          eois-none s.using_apic ctx.vector (ground (arith, e)) in
        rw (e, due, ==_ne ctx.vector 33 ne') (ctx', s', refl, w ∙ sym (append-nil s.writes), k)
  ]

  timer_ends :
      ctx.vector ≡ 32
      → 0 < s.timer.timer_hz
      → Ended (end_of_irq ctx.vector (back_with ctx (on_timer s (on_timer_tick s.timer))))
  unfolding on_timer send_eoi
  timer_ends q h = rw (on_timer_tick-some s.timer h) (
      ends_alone ctx _ (rw q refl)
        (rw q (ap (◌++◌ s.writes) (eoi_writes-eois s.using_apic 32 (omega arith) (omega arith))))
        (rw q refl))

  keyboard_ends :
      ctx.vector ≡ 33
      → Ended (
          end_of_irq ctx.vector (
            some (
              ctx,
              send_eoi (record s { keyboard = handle_keyboard_scancode s.keyboard port60 }) 1,
            )))
  unfolding send_eoi
  keyboard_ends q =
      ends_alone ctx _ (rw q refl)
        (rw q (ap (◌++◌ s.writes) (eoi_writes-eois s.using_apic 33 (omega arith) (omega arith))))
        (rw q refl)

  syscall_ends :
      ctx.vector ≡ 128
      → ctx.rax ≢ 21
      → Ended (
          end_of_irq ctx.vector (
            on_syscall s ctx
              (rust_syscall_handler s.memory s.screen ctx.rax ctx.rdi ctx.rsi ctx.rdx)))
  unfolding on_syscall
  syscall_ends q ne =
      let (word, shown, e) =
        rust_syscall_handler-some s.memory s.screen ctx.rdi ctx.rsi ctx.rdx ctx.rax ne in
      rw e (
        ends_later (record ctx { rax = word }) (record s { screen = shown }) refl refl refl
          (omega arith) (omega arith))

  -- Where the handler returns, it has ended the interrupt exactly once for each of the vectors from 32
  -- to 47, and for no other vector: with the APIC by one write to the local APIC, and without it at the
  -- first PIC for the vectors up to 39, at the second and then the first for those from 40 on. And the keyboard has
  -- taken the scancode from its port for vector 33, and is unchanged for any other.
  pub rust_isr_handler_lem : Returns s ctx → Ended (rust_isr_handler s ctx port60)
  unfolding rust_isr_handler dispatch_vector
  rust_isr_handler_lem v =
      let Goal : Option (InterruptContext × System) → Type 0 =
        λ r. Ended (end_of_irq ctx.vector r) in
      if_elim Goal (ctx.vector == 8) (λ e. absurd (v.no_double_fault ((==_iff _ _).0 e)))
        (λ e8.
          if_elim Goal (ctx.vector == 32) (λ e. timer_ends ((==_iff _ _).0 e) v.ticking)
            (λ e32.
              if_elim Goal (ctx.vector == 33) (λ e. keyboard_ends ((==_iff _ _).0 e))
                (λ e33.
                  if_elim Goal (ctx.vector == 128) (λ e. called ((==_iff _ _).0 e) v.no_exit)
                    (λ e128.
                      if_elim Goal (ltb ctx.vector 32)
                        (λ e.
                          ends_later ctx _ refl refl refl (ground (arith, e)) (ground (arith, e)))
                        (λ e.
                          ends_later ctx s refl refl refl (ground (arith, e32))
                            (ground (arith, e33)))))))
    where
      called :
          ctx.vector ≡ 128
          → (ctx.vector ≢ 128) ⊎ (ctx.rax ≢ 21)
          → Ended (
              end_of_irq ctx.vector (
                on_syscall s ctx
                  (rust_syscall_handler s.memory s.screen ctx.rax ctx.rdi ctx.rsi ctx.rdx)))
      called q (inl ne) = absurd (ne q)
      called q (inr ne) = syscall_ends q ne
