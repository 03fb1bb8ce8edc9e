-- ===== src/Shell/Lines.antt =====
-- src/lib.rs: what a typed line means, whatever blanks are around its words.
use delta_os.Base.{
  ℕ, zero, suc, ◌+◌, ◌%◌, ◌/◌, ◌<◌, ◌≡◌, refl, ap, ◌∙◌, false, not, ◌&&◌, List, [], ◌∷◌, ◌++◌, some,
  ◌==◌, ltb, if_elim, All, All-map, arith, replicate, retain,
}
use delta_os.Base.Word.{u64_mod}
use delta_os.Vfs.Path.{Text, is_empty, join_first}
use delta_os.Task.{ExitCode}
use delta_os.Scheduler.State.{Scheduler}
use delta_os.Scheduler.Control.{terminate_task}
use delta_os.Console.{parse_int}
use delta_os.Console.Numbers.{decimal, IsDigit, decimal-All, parse_int-decimal}
use delta_os.Shell.{
  Shell, Entries, kprintln, is_whitespace, trim_start, trim_end, trim, split_space, words,
  kill_word, kill_message, with_scheduler, cmd_kill, run_command, run_words, execute_command,
}

abbrev pub blanks : ℕ → Text
blanks n = replicate n 32

-- A word and its argument, with blanks before, between and behind.
abbrev pub line : ℕ → Text → ℕ → Text → ℕ → Text
line i cmd j arg k = blanks i ++ (cmd ++ ((32 ∷ blanks j) ++ (arg ++ blanks k)))

-- A word: it has a character, and none is a space.
abbrev pub IsWord : Text → Type 0
IsWord w = (is_empty w ≡ false) × All (λ c. is_whitespace c ≡ false) w

trim_start-blanks : (i : ℕ) (s : Text) → trim_start (blanks i ++ s) ≡ trim_start s
unfolding trim_start
trim_start-blanks zero s = refl
trim_start-blanks (suc i) s = trim_start-blanks i s

trim_start-IsWord : (w s : Text) → IsWord w → trim_start (w ++ s) ≡ w ++ s
unfolding trim_start
trim_start-IsWord [] s (e, a) = absurd (cc)
trim_start-IsWord (c ∷ w) s (e, (b, a)) = rw b refl

trim_end-blanks : (k : ℕ) → trim_end (blanks k) ≡ []
unfolding trim_end
trim_end-blanks zero = refl
trim_end-blanks (suc k) = rw (trim_end-blanks k) refl

trim_end-word :
    (w : Text) (k : ℕ) → All (λ c. is_whitespace c ≡ false) w → trim_end (w ++ blanks k) ≡ w
unfolding trim_end
trim_end-word [] k a = trim_end-blanks k
trim_end-word (c ∷ w) k (b, a) = rw (b, trim_end-word w k a) refl

is_empty-append : (p t : Text) → is_empty t ≡ false → is_empty (p ++ t) ≡ false
is_empty-append [] t e = e
is_empty-append (c ∷ p) t e = refl

trim_end-append : (p t : Text) → is_empty (trim_end t) ≡ false → trim_end (p ++ t) ≡ p ++ trim_end t
unfolding trim_end
trim_end-append [] t e = refl
trim_end-append (c ∷ p) t e =
    let ih = trim_end-append p t e in
    let some_left : is_empty (trim_end (p ++ t)) ≡ false =
      ap is_empty ih ∙ is_empty-append p (trim_end t) e in
    if_elim (λ r. r ≡ c ∷ (p ++ trim_end t)) (is_whitespace c && is_empty (trim_end (p ++ t)))
      (λ h. absurd (ground (arith, h, some_left))) λ _. ap (λ u. c ∷ u) ih

split_space-word :
    (w t : Text)
    → All (λ c. is_whitespace c ≡ false) w
    → split_space (w ++ 32 ∷ t) ≡ w ∷ split_space t
unfolding split_space join_first
split_space-word [] t a = refl
split_space-word (c ∷ w) t (b, a) =
    if_elim (λ r. r ≡ (c ∷ w) ∷ split_space t) (c == 32) (λ h. absurd (ground (arith, h, b)))
      λ _. ap (join_first c) (split_space-word w t a)

split_space_last : (w : Text) → All (λ c. is_whitespace c ≡ false) w → split_space w ≡ w ∷ []
unfolding split_space join_first
split_space_last [] a = refl
split_space_last (c ∷ w) (b, a) =
    if_elim (λ r. r ≡ (c ∷ w) ∷ []) (c == 32) (λ h. absurd (ground (arith, h, b)))
      λ _. ap (join_first c) (split_space_last w a)

words-blanks : (j : ℕ) (s : Text) → words (blanks j ++ s) ≡ words s
unfolding words split_space
words-blanks zero s = refl
words-blanks (suc j) s = words-blanks j s

words-word : (w t : Text) → IsWord w → words (w ++ 32 ∷ t) ≡ w ∷ words t
unfolding words
words-word w t (e, a) = ap (retain (λ v. not (is_empty v))) (split_space-word w t a) ∙ rw e refl

words_last : (w : Text) → IsWord w → words w ≡ w ∷ []
unfolding words
words_last w (e, a) = ap (retain (λ v. not (is_empty v))) (split_space_last w a) ∙ rw e refl

trim-line :
    (i : ℕ) (cmd : Text) (j : ℕ) (arg : Text) (k : ℕ)
    → IsWord cmd
    → IsWord arg
    → trim (line i cmd j arg k) ≡ cmd ++ ((32 ∷ blanks j) ++ arg)
trim-line i cmd j arg k c (e, a) =
    let end = trim_end-word arg k a in
    let tail : trim_end ((32 ∷ blanks j) ++ (arg ++ blanks k)) ≡ (32 ∷ blanks j) ++ arg =
      trim_end-append (32 ∷ blanks j) (arg ++ blanks k) (ap is_empty end ∙ e)
      ∙ ap (λ u. (32 ∷ blanks j) ++ u) end in
    ap trim_end (trim_start-blanks i _ ∙ trim_start-IsWord cmd _ c)
    ∙ (trim_end-append cmd ((32 ∷ blanks j) ++ (arg ++ blanks k)) (ap is_empty tail)
        ∙ ap (λ u. cmd ++ u) tail)

-- A line of a word and its argument runs the command of that name on that argument.
pub execute_command-line :
    (entries : Entries) (sh : Shell) (i : ℕ) (cmd : Text) (j : ℕ) (arg : Text) (k : ℕ)
    → IsWord cmd
    → IsWord arg
    → execute_command entries sh (line i cmd j arg k) ≡ run_command entries sh cmd (arg ∷ [])
unfolding execute_command run_words
execute_command-line entries sh i cmd j arg k c a =
    let split : words (cmd ++ ((32 ∷ blanks j) ++ arg)) ≡ cmd ∷ arg ∷ [] =
      words-word cmd (blanks j ++ arg) c
      ∙ ap (λ (ws : List Text). cmd ∷ ws) (words-blanks j arg ∙ words_last arg a) in
    rw (trim-line i cmd j arg k c a, is_empty-append cmd ((32 ∷ blanks j) ++ arg) refl, split) refl

is_whitespace-IsDigit : (c : ℕ) → IsDigit c → is_whitespace c ≡ false
is_whitespace-IsDigit c (a, b) = ground arith

is_empty-decimal : (f n : ℕ) → is_empty (decimal (suc f) n) ≡ false
unfolding decimal
is_empty-decimal f n =
    if_elim (λ t. is_empty t ≡ false) (ltb n 10) (λ _. refl)
      λ _. is_empty-append (decimal f (n / 10)) ((48 + n % 10) ∷ []) refl

decimal-IsWord : (f n : ℕ) → IsWord (decimal (suc f) n)
decimal-IsWord f n = (
  is_empty-decimal f n,
  All-map IsDigit _ (decimal (suc f) n) is_whitespace-IsDigit (decimal-All (suc f) n),
)

cmd_kill-decimal :
    (s : Scheduler) (sh : Shell) (n : ℕ)
    → sh.scheduler ≡ some s
    → 0 < n
    → n < u64_mod
    → let (result, s') = terminate_task s n (ExitCode.minus 9) in
      cmd_kill sh (decimal 20 n ∷ [])
      ≡ kprintln (record sh { scheduler = some s' }) (kill_message n result)
unfolding cmd_kill
cmd_kill-decimal s sh n e pos lt =
    let read : parse_int (decimal 20 n) ≡ n = parse_int-decimal 20 n (omega arith) lt in
    let nonzero : (n == 0) ≡ false = ground arith in
    rw (read, nonzero)
      (ap (λ o. with_scheduler sh o (λ t. terminate_task t n (ExitCode.minus 9)) (kill_message n))
        e)

-- The line `kill n`, with any blanks before, between and behind the words, terminates the task n with the
-- exit code -9 as the scheduler does, for every n of 64 bits but 0, and prints the outcome for n.
pub execute_command-kill :
    (entries : Entries) (s : Scheduler) (sh : Shell) (i j k n : ℕ)
    → sh.scheduler ≡ some s
    → 0 < n
    → n < u64_mod
    → let (result, s') = terminate_task s n (ExitCode.minus 9) in
      execute_command entries sh (line i kill_word j (decimal 20 n) k)
      ≡ kprintln (record sh { scheduler = some s' }) (kill_message n result)
unfolding run_command
execute_command-kill entries s sh i j k n e pos lt =
    execute_command-line entries sh i kill_word j (decimal 20 n) k
      (refl, (refl, (refl, (refl, (refl, tt))))) (decimal-IsWord 19 n)
    ∙ cmd_kill-decimal s sh n e pos lt
