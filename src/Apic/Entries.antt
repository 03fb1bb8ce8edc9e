-- ===== src/Apic/Entries.antt =====
-- src/apic/mod.rs: what an IO APIC promises, and what writing a redirection entry does to the entries.
use Prim.Native.Nat.{bit_and}
use delta_os.Base.{
  ℕ, ◌+◌, ◌*◌, ◌/◌, ◌%◌, ◌^◌, ◌≤◌, ◌<◌, ◌≡◌, ◌≢◌, refl, ap, ◌∙◌, if◌then◌else◌, ◌==◌, if_elim,
  arith, ==_iff, subst,
}
use delta_os.Base.Word.{u32_mod}
use delta_os.Apic.{Bus, Apic, write_register, write_redirect}

-- The bits of an entry's two words that a program can write. In the low word the delivery status, bit 12,
-- and the remote IRR, bit 14, are read-only and the bits from 17 on reserved; the high word has the
-- destination in its last 8 bits.
abbrev pub writable_low : ℕ
writable_low = 0x1AFFF

abbrev pub writable_high : ℕ
writable_high = 0xFF000000

module _ {D : Type 0} (bus : Bus D) (base : ℕ) where
  -- The register of a number as it is read: the number is selected at the address, and the data window is
  -- 0x10 behind it.
  abbrev pub shown : D → ℕ → ℕ
  shown d r = bus.read32 (bus.write32 d base r) (base + 0x10)

  abbrev pub written : D → ℕ → ℕ → D
  written d r v = bus.write32 (bus.write32 d base r) (base + 0x10) v

  -- The writable bits of the words of an input's entry.
  abbrev pub low : D → ℕ → ℕ
  low d g = bit_and (shown d (0x10 + g * 2)) writable_low

  abbrev pub high : D → ℕ → ℕ
  high d g = bit_and (shown d (0x10 + g * 2 + 1)) writable_high

-- An IO APIC at an address, with a number of inputs: its version register tells the number, the entries of
-- the inputs have the registers from 0x10 on, all below 256, and a write to one of these sets the
-- writable bits of that word and of no other. Nothing is said of other registers.
pub record IsIoApic {D : Type 0} (bus : Bus D) (base inputs : ℕ) : Type 0 where
  pub few : inputs ≤ 120
  pub version : (d : D) → shown bus base d 1 / 2 ^ 16 % 256 + 1 ≡ inputs
  pub low_low :
      (d : D) (i v g : ℕ)
      → i < inputs
      → g < inputs
      → v < u32_mod
      → low bus base (written bus base d (0x10 + i * 2) v) g
        ≡ (if i == g then bit_and v writable_low else low bus base d g)
  pub low_high :
      (d : D) (i v g : ℕ)
      → i < inputs
      → g < inputs
      → v < u32_mod
      → high bus base (written bus base d (0x10 + i * 2) v) g ≡ high bus base d g
  pub high_low :
      (d : D) (i v g : ℕ)
      → i < inputs
      → g < inputs
      → v < u32_mod
      → low bus base (written bus base d (0x10 + i * 2 + 1) v) g ≡ low bus base d g
  pub high_high :
      (d : D) (i v g : ℕ)
      → i < inputs
      → g < inputs
      → v < u32_mod
      → high bus base (written bus base d (0x10 + i * 2 + 1) v) g
        ≡ (if i == g then bit_and v writable_high else high bus base d g)

-- A low word with writable bits only.
abbrev pub IsEntry : ℕ → Type 0
IsEntry v = (v < u32_mod) × (bit_and v writable_low ≡ v)

module _ {D : Type 0} (bus : Bus D) (base inputs : ℕ) (io : IsIoApic bus base inputs) where
  -- The entry of an input has a low word, and destination 0.
  unfoldable pub Holds : Apic D → ℕ → ℕ → Type 0
  Holds a g v = (low bus base a.devices g ≡ v) × (high bus base a.devices g ≡ 0)

  entry-write_redirect :
      (a : Apic D) (i v g : ℕ)
      → a.ioapic_base ≡ base
      → i < inputs
      → g < inputs
      → IsEntry v
      → (low bus base (write_redirect bus a i v).devices g
          ≡ (if i == g then v else low bus base a.devices g))
        × (high bus base (write_redirect bus a i v).devices g
            ≡ (if i == g then 0 else high bus base a.devices g))
  unfolding write_redirect write_register
  entry-write_redirect a i v g e l k (lt, kept) =
      let low_word : v % u32_mod ≡ v = omega arith in
      let high_word : v / u32_mod % u32_mod ≡ 0 = omega arith in
      let d = written bus base a.devices (0x10 + i * 2) v in
      rw (e, low_word, high_word)
        (
          io.high_low d i 0 g l k (omega arith)
              ∙ (io.low_low a.devices i v g l k lt
                  ∙ ap (λ w. if i == g then w else low bus base a.devices g) kept),
          io.high_high d i 0 g l k (omega arith)
              ∙ ap (λ w. if i == g then 0 else w) (io.low_high a.devices i v g l k lt),
        )

  pub write_redirect-same :
      (a : Apic D) (i v : ℕ)
      → a.ioapic_base ≡ base
      → i < inputs
      → IsEntry v
      → Holds (write_redirect bus a i v) i v
  unfolding Holds
  write_redirect-same a i v e l w =
      let (x, y) = entry-write_redirect a i v i e l l w in (x ∙ ground arith, y ∙ ground arith)

  pub write_redirect-other :
      (a : Apic D) (i v g w : ℕ)
      → a.ioapic_base ≡ base
      → i < inputs
      → g < inputs
      → IsEntry v
      → i ≢ g
      → Holds a g w
      → Holds (write_redirect bus a i v) g w
  unfolding Holds
  write_redirect-other a i v g w e l k u ne h =
      let (x, y) = entry-write_redirect a i v g e l k u in
      (x ∙ (ground (arith, ne) ∙ h.0), y ∙ (ground (arith, ne) ∙ h.1))

  pub write_redirect-Holds :
      (a : Apic D) (i v g w : ℕ)
      → a.ioapic_base ≡ base
      → i < inputs
      → g < inputs
      → IsEntry v
      → Holds a g w
      → Holds (write_redirect bus a i v) g (if i == g then v else w)
  write_redirect-Holds a i v g w e l k u h =
      if_elim (Holds (write_redirect bus a i v) g) (i == g)
        (λ q.
          subst (λ x. Holds (write_redirect bus a i v) x v) ((==_iff i g).0 q)
            (write_redirect-same a i v e l u))
        λ q. write_redirect-other a i v g w e l k u (λ p. ground (arith, q, p)) h

  pub base-write_redirect :
      (a : Apic D) (i v : ℕ) → (write_redirect bus a i v).ioapic_base ≡ a.ioapic_base
  unfolding write_redirect write_register
  base-write_redirect a i v = refl
