-- ===== src/Apic/Redirects.antt =====
-- src/apic/mod.rs: the redirection entries after `IoApic::init`.
use native.Mathlib.Decide.{ℕ_discrete}
use Prim.Native.Nat.{bit_and}
use delta_os.Base.{
  ℕ, zero, suc, ◌+◌, ◌/◌, ◌%◌, ◌^◌, ◌≤◌, ◌<◌, ◌≡◌, ◌≢◌, refl, sym, ◌∙◌, Bool, true, false, not, All,
  List, [], ◌∷◌, if◌then◌else◌, ◌==◌, take, if_elim, arith, ◌⊎◌, inl, inr, ==_iff, subst,
}
use delta_os.Base.Word.{u8_mod}
use delta_os.Acpi.Tables.{IntOverride, AcpiInfo}
use delta_os.Apic.{
  Bus, Apic, read_register, write_redirect, setup_irq, mask_all, route, route_all, init_io,
}
use delta_os.Apic.Entries.{
  low, high, IsIoApic, IsEntry, Holds, write_redirect-same, write_redirect-other,
  write_redirect-Holds, base-write_redirect,
}

-- The low word of a redirection entry after an override of the timer's interrupt.
unfoldable pub routed : IntOverride → ℕ → ℕ → ℕ
routed o g before =
    if o.irq_source == 0
    then if o.global_system_interrupt == g
      then (if not (bit_and o.flags 0x0A == 0) then 0x8020 else 0x20)
      else before
    else before

unfoldable pub routed_all : List IntOverride → ℕ → ℕ → ℕ
routed_all [] g before = before
routed_all (o ∷ os) g before = routed_all os g (routed o g before)

-- An override of the timer's interrupt names an input.
abbrev pub IsNamed : ℕ → IntOverride → Type 0
IsNamed inputs o = o.irq_source ≡ 0 → o.global_system_interrupt < inputs

if_elim_both :
    {A : Type 0} (P : A → ℕ → Type 0) (b : Bool) {x y : A} {v w : ℕ}
    → (b ≡ true → P x v)
    → (b ≡ false → P y w)
    → P (if b then x else y) (if b then v else w)
if_elim_both P true f g = f refl
if_elim_both P false f g = g refl

module _ {D : Type 0} (bus : Bus D) (base inputs : ℕ) (io : IsIoApic bus base inputs) where
  mask_all-Holds :
      (count i : ℕ) (a : Apic D) (g : ℕ)
      → a.ioapic_base ≡ base
      → i + count ≤ inputs
      → g < inputs
      → ((i ≤ g → Holds bus base inputs io (mask_all bus count i a) g 0x10000 ⊎ (i + count ≤ g))
          × (g < i
              → Holds bus base inputs io a g 0x10000
              → Holds bus base inputs io (mask_all bus count i a) g 0x10000))
        × ((mask_all bus count i a).ioapic_base ≡ base)
  unfolding mask_all
  mask_all-Holds zero i a g e l k = (((λ le. inr (omega arith)), λ lt h. h), e)
  mask_all-Holds (suc count) i a g e l k =
      let masked : IsEntry 0x10000 = (omega arith, refl) in
      let next = write_redirect bus a i 0x10000 in
      let ((after, kept), b) =
        mask_all-Holds count (suc i) next g (base-write_redirect bus base inputs io a i 0x10000 ∙ e)
          (omega arith) k in
      (
        (
          (λ le. elim (ℕ_discrete i g) [
            | yes q ↦ inl (
                kept (omega arith) (
                  subst (λ x. Holds bus base inputs io next x 0x10000) q
                    (write_redirect-same bus base inputs io a i 0x10000 e (omega arith) masked)))
            | no n ↦ elim (after (omega arith)) [ inl h ↦ inl h | inr l ↦ inr (omega arith) ]
          ]),
          λ lt h. kept (omega arith) (
              write_redirect-other bus base inputs io a i 0x10000 g 0x10000 e (omega arith) k masked
                (λ q. omega arith) h),
        ),
        b,
      )

  route-Holds :
      (o : IntOverride) (a : Apic D) (g w : ℕ)
      → a.ioapic_base ≡ base
      → g < inputs
      → IsNamed inputs o
      → Holds bus base inputs io a g w
      → Holds bus base inputs io (route bus o a) g (routed o g w)
        × ((route bus o a).ioapic_base ≡ base)
  unfolding route routed setup_irq
  route-Holds o a g w e k named h =
      if_elim_both (λ (b : Apic D) (v : ℕ). Holds bus base inputs io b g v × (b.ioapic_base ≡ base))
        (o.irq_source == 0)
        (λ zero_source.
          let gsi : ℕ = o.global_system_interrupt in
          let word : ℕ = if not (bit_and o.flags 0x0A == 0) then 0x8020 else 0x20 in
          let entry : IsEntry word =
            if_elim IsEntry (not (bit_and o.flags 0x0A == 0)) (λ _. (omega arith, refl))
              λ _. (omega arith, refl) in
          let inside : gsi < inputs = named ((==_iff o.irq_source 0).0 zero_source) in
          let small : gsi % u8_mod ≡ gsi = let f = io.few in omega arith in
          rw small (
            write_redirect-Holds bus base inputs io a gsi word g w e inside k entry h,
            base-write_redirect bus base inputs io a gsi word ∙ e,
          ))
        λ _. (h, e)

  route_all-Holds :
      (os : List IntOverride) (a : Apic D) (g w : ℕ)
      → a.ioapic_base ≡ base
      → g < inputs
      → All (IsNamed inputs) os
      → Holds bus base inputs io a g w
      → Holds bus base inputs io (route_all bus os a) g (routed_all os g w)
  unfolding route_all routed_all
  route_all-Holds [] a g w e k n h = h
  route_all-Holds (o ∷ os) a g w e k (n, ns) h =
      let (h', e') = route-Holds o a g w e k n h in
      route_all-Holds os (route bus o a) g (routed o g w) e' k ns h'

  -- `IoApic::init` on an IO APIC of two inputs or more, at an address other than 0, where each override of
  -- interrupt 0 names an input: the entry of each input, read back in its writable bits, has
  -- destination 0, and its low word is masked but for input 1, which goes to vector 0x21
  -- edge-triggered, and the inputs that overrides of interrupt 0 name, which go to vector 0x20; a
  -- later override counts before an earlier one.
  pub init_io_lem :
      (a : Apic D) (info : AcpiInfo) (g : ℕ)
      → info.io_apic_address ≡ base
      → base ≢ 0
      → 1 < inputs
      → g < inputs
      → All (IsNamed inputs) (take info.int_override_count info.int_overrides)
      → let a' = init_io bus a info in
        (low bus base a'.devices g
          ≡ routed_all
              (take info.int_override_count info.int_overrides)
              g
              (if 1 == g then 0x21 else 0x10000))
        × (high bus base a'.devices g ≡ 0)
  unfolding init_io read_register setup_irq Holds
  init_io_lem a info g e ne two k named =
      let found : Apic D = record a {
        ioapic_base = info.io_apic_address;
        devices = bus.write32 a.devices info.io_apic_address 1;
      } in
      let version = bus.read32 found.devices (info.io_apic_address + 0x10) in
      let count = version / 2 ^ 16 % u8_mod + 1 in
      let counted : count ≡ inputs = rw e (io.version a.devices) in
      let ((after, _), b) = mask_all-Holds count 0 found g e (omega (arith, counted)) k in
      let os = take info.int_override_count info.int_overrides in
      let word : ℕ = if 1 == g then 0x21 else 0x10000 in
      let keyboard : IsEntry 0x21 = (omega arith, refl) in
      if_elim (λ x. Holds bus base inputs io x g (routed_all os g word)) (info.io_apic_address == 0)
        (λ h. absurd (ne (sym e ∙ (==_iff info.io_apic_address 0).0 h)))
        λ _. elim (after (omega arith)) [
          | inl h ↦
              route_all-Holds os (write_redirect bus (mask_all bus count 0 found) 1 0x21) g word
                (base-write_redirect bus base inputs io (mask_all bus count 0 found) 1 0x21 ∙ b) k
                named
                (write_redirect-Holds bus base inputs io (mask_all bus count 0 found) 1 0x21 g
                  0x10000 b two k keyboard h)
          | inr l ↦ absurd (omega (arith, counted, k, l))
        ]
