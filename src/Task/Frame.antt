-- ===== src/Task/Frame.antt =====
-- src/sched/task.rs and src/sched/context_switch.asm: the frame that a new task starts from, as
-- `InterruptFrame` lays it out and as the assembly reads it.
use delta_os.Base.{
  ℕ, zero, suc, ◌+◌, ◌-◌, ◌*◌, ◌≤◌, ◌<◌, ◌≡◌, ◌≢◌, refl, ap, ◌∙◌, ◌⊎◌, inl, inr, List, [], ◌∷◌,
  arith, length, get_or,
}
use delta_os.Base.Word.{u64_mod, sub64}
use delta_os.Task.{Task, Cursor, write, push, push_zeros, initial_frame, setup_initial_stack}

-- The fields of `InterruptFrame`, in its order in memory.
pub record InterruptFrame : Type 0 where
  pub r15 : ℕ
  pub r14 : ℕ
  pub r13 : ℕ
  pub r12 : ℕ
  pub r11 : ℕ
  pub r10 : ℕ
  pub r9 : ℕ
  pub r8 : ℕ
  pub rbp : ℕ
  pub rdi : ℕ
  pub rsi : ℕ
  pub rdx : ℕ
  pub rcx : ℕ
  pub rbx : ℕ
  pub rax : ℕ
  pub ds : ℕ
  pub vector : ℕ
  pub error_code : ℕ
  pub rip : ℕ
  pub cs : ℕ
  pub rflags : ℕ
  pub rsp : ℕ
  pub ss : ℕ

-- The structure at an address.
unfoldable pub read_frame : (ℕ → ℕ) → ℕ → InterruptFrame
read_frame mem a = record {
  r15 = mem (a + 8 * 0);
  r14 = mem (a + 8 * 1);
  r13 = mem (a + 8 * 2);
  r12 = mem (a + 8 * 3);
  r11 = mem (a + 8 * 4);
  r10 = mem (a + 8 * 5);
  r9 = mem (a + 8 * 6);
  r8 = mem (a + 8 * 7);
  rbp = mem (a + 8 * 8);
  rdi = mem (a + 8 * 9);
  rsi = mem (a + 8 * 10);
  rdx = mem (a + 8 * 11);
  rcx = mem (a + 8 * 12);
  rbx = mem (a + 8 * 13);
  rax = mem (a + 8 * 14);
  ds = mem (a + 8 * 15);
  vector = mem (a + 8 * 16);
  error_code = mem (a + 8 * 17);
  rip = mem (a + 8 * 18);
  cs = mem (a + 8 * 19);
  rflags = mem (a + 8 * 20);
  rsp = mem (a + 8 * 21);
  ss = mem (a + 8 * 22);
}

-- What the processor holds after the pops and the `iretq` that end `timer_isr`: ds first, then
-- r15 to rax, then rip, cs, rflags, rsp and ss.
pub record Resumed : Type 0 where
  pub ds : ℕ
  pub r15 : ℕ
  pub rax : ℕ
  pub rip : ℕ
  pub cs : ℕ
  pub rflags : ℕ
  pub rsp : ℕ
  pub ss : ℕ

unfoldable pub timer_isr_resume : (ℕ → ℕ) → ℕ → Resumed
timer_isr_resume mem a = record {
  ds = mem (a + 8 * 0);
  r15 = mem (a + 8 * 1);
  rax = mem (a + 8 * 15);
  rip = mem (a + 8 * 16);
  cs = mem (a + 8 * 17);
  rflags = mem (a + 8 * 18);
  rsp = mem (a + 8 * 19);
  ss = mem (a + 8 * 20);
}

-- The words from an address up.
abbrev Stacked : (ℕ → ℕ) → ℕ → List ℕ → Type 0
Stacked mem a ws = (i : ℕ) → i < length ws → mem (a + 8 * i) ≡ get_or ws i 0

abbrev pushes : List ℕ → Cursor → Cursor
pushes [] c = c
pushes (v ∷ vs) c = pushes vs (push c v)

abbrev onto : List ℕ → List ℕ → List ℕ
onto [] ws = ws
onto (v ∷ vs) ws = onto vs (v ∷ ws)

-- After the pushes: where the pointer stands, what lies above it, and what is untouched.
record Pushed (rsp n : ℕ) (mem : ℕ → ℕ) (ws : List ℕ) (c : Cursor) : Type 0 where
  pointer : c.0 + 8 * n ≡ rsp
  words : Stacked c.1 c.0 ws
  below : (a : ℕ) → a < c.0 → c.1 a ≡ mem a
  above : (a : ℕ) → rsp ≤ a → c.1 a ≡ mem a

push-exact :
    (rsp v : ℕ) (mem : ℕ → ℕ)
    → 8 ≤ rsp
    → rsp < u64_mod
    → push (rsp, mem) v ≡ (rsp - 8, write mem (rsp - 8) v)
unfolding push
push-exact rsp v mem h k = let e : sub64 rsp 8 ≡ rsp - 8 = omega arith in rw e

write_self : (mem : ℕ → ℕ) (a v b : ℕ) → a ≡ b → write mem a v b ≡ v
unfolding write
write_self mem a v b e = ground arith

write-ne : (mem : ℕ → ℕ) (a v b : ℕ) → a ≢ b → write mem a v b ≡ mem b
unfolding write
write-ne mem a v b ne = ground arith

write-Stacked :
    (mem : ℕ → ℕ) (rsp v : ℕ) (ws : List ℕ)
    → 8 ≤ rsp
    → Stacked mem rsp ws
    → Stacked (write mem (rsp - 8) v) (rsp - 8) (v ∷ ws)
write-Stacked mem rsp v ws h s zero k = write_self mem (rsp - 8) v (rsp - 8 + 8 * 0) (omega arith)
write-Stacked mem rsp v ws h s (suc i) k =
    let e : rsp - 8 + 8 * suc i ≡ rsp + 8 * i = omega arith in
    write-ne mem (rsp - 8) v (rsp - 8 + 8 * suc i) (omega arith) ∙ ap mem e ∙ s i (omega arith)

pushes-Pushed :
    (vs ws : List ℕ) (rsp : ℕ) (mem : ℕ → ℕ)
    → 8 * length vs ≤ rsp
    → rsp < u64_mod
    → Stacked mem rsp ws
    → Pushed rsp (length vs) mem (onto vs ws) (pushes vs (rsp, mem))
pushes-Pushed [] ws rsp mem h k s = record {
  pointer = omega arith;
  words = s;
  below = λ a l. refl;
  above = λ a l. refl;
}
pushes-Pushed (v ∷ vs) ws rsp mem h k s =
    let rest : Pushed (rsp - 8) (length vs) (write mem (rsp - 8) v) (onto vs (v ∷ ws))
        (pushes vs (rsp - 8, write mem (rsp - 8) v)) =
      pushes-Pushed vs (v ∷ ws) (rsp - 8) (write mem (rsp - 8) v) (omega arith) (omega arith)
        (write-Stacked mem rsp v ws (omega arith) s) in
    rw (push-exact rsp v mem (omega arith) k) (record {
      pointer = omega (arith, rest.pointer);
      words = rest.words;
      below = λ a l. rest.below a l ∙ write-ne mem (rsp - 8) v a (omega (arith, rest.pointer));
      above = λ a l. rest.above a (omega arith) ∙ write-ne mem (rsp - 8) v a (omega arith);
    })

abbrev zeros : ℕ → List ℕ
zeros zero = []
zeros (suc n) = 0 ∷ zeros n

-- What `setup_initial_stack` pushes, first to last.
abbrev words_pushed : ℕ → ℕ → List ℕ
words_pushed top entry = 0x10 ∷ top ∷ 0x202 ∷ 0x08 ∷ entry ∷ 0 ∷ 0x20 ∷ 0x10 ∷ zeros 15

initial_frame-pushes :
    (top entry : ℕ) (mem : ℕ → ℕ)
    → initial_frame top entry mem ≡ pushes (words_pushed top entry) (top, mem)
unfolding initial_frame push_zeros
initial_frame-pushes top entry mem = refl

initial_frame-Pushed :
    (top entry : ℕ) (mem : ℕ → ℕ)
    → 184 ≤ top
    → top < u64_mod
    → Pushed top 23 mem (onto (words_pushed top entry) []) (initial_frame top entry mem)
initial_frame-Pushed top entry mem h k = rw (initial_frame-pushes top entry mem) (
    pushes-Pushed (words_pushed top entry) [] top mem (omega arith) k (λ i l. absurd (omega arith)))

-- The frame of a task that has not run: registers clear, kernel segments, interrupts enabled.
abbrev pub fresh_frame : ℕ → ℕ → InterruptFrame
fresh_frame entry top = record {
  r15 = 0;
  r14 = 0;
  r13 = 0;
  r12 = 0;
  r11 = 0;
  r10 = 0;
  r9 = 0;
  r8 = 0;
  rbp = 0;
  rdi = 0;
  rsi = 0;
  rdx = 0;
  rcx = 0;
  rbx = 0;
  rax = 0;
  ds = 0x10;
  vector = 0x20;
  error_code = 0;
  rip = entry;
  cs = 0x08;
  rflags = 0x202;
  rsp = top;
  ss = 0x10;
}

read_frame-fresh :
    (mem : ℕ → ℕ) (a top entry : ℕ)
    → Stacked mem a (onto (words_pushed top entry) [])
    → read_frame mem a ≡ fresh_frame entry top
unfolding read_frame
read_frame-fresh mem a top entry w = λ i. record {
  r15 = w 0 (omega arith) i;
  r14 = w 1 (omega arith) i;
  r13 = w 2 (omega arith) i;
  r12 = w 3 (omega arith) i;
  r11 = w 4 (omega arith) i;
  r10 = w 5 (omega arith) i;
  r9 = w 6 (omega arith) i;
  r8 = w 7 (omega arith) i;
  rbp = w 8 (omega arith) i;
  rdi = w 9 (omega arith) i;
  rsi = w 10 (omega arith) i;
  rdx = w 11 (omega arith) i;
  rcx = w 12 (omega arith) i;
  rbx = w 13 (omega arith) i;
  rax = w 14 (omega arith) i;
  ds = w 15 (omega arith) i;
  vector = w 16 (omega arith) i;
  error_code = w 17 (omega arith) i;
  rip = w 18 (omega arith) i;
  cs = w 19 (omega arith) i;
  rflags = w 20 (omega arith) i;
  rsp = w 21 (omega arith) i;
  ss = w 22 (omega arith) i;
}

module _ (t : Task) (mem : ℕ → ℕ) (room : 184 ≤ t.stack_top) (word : t.stack_top < u64_mod) where
  -- On a stack of at least 184 bytes whose top is a 64-bit address, `setup_initial_stack` leaves at `saved_rsp`, 184 bytes below
  -- the top, the `InterruptFrame` that starts the task at its entry point with its own stack, and
  -- writes nowhere else.
  pub read_frame-setup_initial_stack :
      let (t', mem') = setup_initial_stack t mem in
      (read_frame mem' t'.saved_rsp ≡ fresh_frame t.entry_point t.stack_top)
      × (t'.saved_rsp + 184 ≡ t.stack_top)
      × ((a : ℕ) → (a < t'.saved_rsp) ⊎ (t.stack_top ≤ a) → mem' a ≡ mem a)
  unfolding setup_initial_stack read_frame
  read_frame-setup_initial_stack =
      let c = initial_frame t.stack_top t.entry_point mem in
      let p = initial_frame-Pushed t.stack_top t.entry_point mem room word in
      (
        read_frame-fresh c.1 c.0 t.stack_top t.entry_point p.words,
        p.pointer,
        λ a h. elim h [ inl l ↦ p.below a l | inr l ↦ p.above a l ],
      )

  -- On such a stack, the frame that `setup_initial_stack` leaves does not start the task when it is
  -- read the way `timer_isr` pops it: the saved vector is taken for rip, the error code for cs and
  -- the entry point for rflags; and the word that `ret` in `context_switch` pops is 0.
  pub timer_isr_resume-setup_initial_stack :
      let (t', mem') = setup_initial_stack t mem in
      ((timer_isr_resume mem' t'.saved_rsp).rip ≡ 0x20)
      × ((timer_isr_resume mem' t'.saved_rsp).cs ≡ 0)
      × ((timer_isr_resume mem' t'.saved_rsp).rflags ≡ t.entry_point)
      × (mem' t'.regs.rsp ≡ 0)
  unfolding setup_initial_stack timer_isr_resume
  timer_isr_resume-setup_initial_stack =
      let p = initial_frame-Pushed t.stack_top t.entry_point mem room word in
      (
        p.words 16 (omega arith),
        p.words 17 (omega arith),
        p.words 18 (omega arith),
        ap (initial_frame t.stack_top t.entry_point mem).1 (omega arith) ∙ p.words 0 (omega arith),
      )
