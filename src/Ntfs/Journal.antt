-- ===== src/Ntfs/Journal.antt =====
-- src/fs/ntfs.rs: the journal keeps the latest entries.
use delta_os.Base.{
  ℕ, zero, suc, ◌+◌, ◌-◌, ◌^◌, ◌≤◌, ◌<◌, ◌≡◌, refl, sym, ap, subst, ◌∙◌, List, [], ◌∷◌, ◌++◌,
  if◌then◌else◌, leb, length, drop, length-append, Bool-cases, inl, inr, arith,
}
use delta_os.Ntfs.{JournalOperation, JournalEntry, NtfsJournal, new_journal, log}
use delta_os.Vfs.Path.{Text}

-- A call of `log`, and the calls in order.
pub record Call : Type 0 where
  pub operation : JournalOperation
  pub file_name : Text
  pub contents : List ℕ

unfoldable pub log_all : NtfsJournal → List Call → NtfsJournal
log_all j [] = j
log_all j (c ∷ calls) = log_all (log j c.operation c.file_name c.contents) calls

-- The entry of each call, numbered from `lsn` on.
abbrev pub entry_of : ℕ → Call → JournalEntry
entry_of lsn c = record {
  lsn = lsn;
  operation = c.operation;
  file_name = c.file_name;
  contents = c.contents;
  timestamp = 0;
}

unfoldable pub numbered : ℕ → List Call → List JournalEntry
numbered lsn [] = []
numbered lsn (c ∷ calls) = entry_of lsn c ∷ numbered (suc lsn) calls

abbrev pub latest : List JournalEntry → List JournalEntry
latest history = drop (length history - 1024) history

drop-append :
    (n : ℕ) (xs ys : List JournalEntry) → n ≤ length xs → drop n (xs ++ ys) ≡ drop n xs ++ ys
drop-append zero xs ys h = refl
drop-append (suc n) [] ys h = absurd (omega arith)
drop-append (suc n) (x ∷ xs) ys h = drop-append n xs ys (omega arith)

drop-drop : (n : ℕ) (xs : List JournalEntry) → drop 1 (drop n xs) ≡ drop (suc n) xs
drop-drop zero xs = refl
drop-drop (suc n) [] = refl
drop-drop (suc n) (x ∷ xs) = drop-drop n xs

length-drop : (n : ℕ) (xs : List JournalEntry) → length (drop n xs) ≡ length xs - n
length-drop zero xs = omega arith
length-drop (suc n) [] = omega arith
length-drop (suc n) (x ∷ xs) = omega (arith, length-drop n xs)

-- The journal after a history of entries.
Holds : List JournalEntry → NtfsJournal → Type 0
Holds history j =
    (j.entries ≡ latest history) × (j.max_entries ≡ 1024) × (j.current_lsn ≡ length history)

-- What the push leaves of the history, in both cases.
kept_latest :
    (history : List JournalEntry) (e : JournalEntry)
    → (if leb 1024 (length (latest history)) then drop 1 (latest history) else latest history)
        ++ e ∷ []
      ≡ latest (history ++ e ∷ [])
kept_latest history e =
    let n : ℕ = length history in
    let total : length (history ++ e ∷ []) ≡ n + 1 = length-append history (e ∷ []) in
    let kept = length-drop (n - 1024) history in
    elim (Bool-cases (leb 1024 (length (latest history)))) [
      | inl full ↦
          let one_more : suc (n - 1024) ≡ n + 1 - 1024 = ground (arith, full, kept) in
          let within : n + 1 - 1024 ≤ n = omega arith in
          rw (full, total, drop-drop (n - 1024) history, one_more)
            (sym (drop-append (n + 1 - 1024) history (e ∷ []) within))
      | inr room ↦
          let none_yet : n - 1024 ≡ n + 1 - 1024 = ground (arith, room, kept) in
          let within : n + 1 - 1024 ≤ n = omega arith in
          rw (room, total, none_yet) (sym (drop-append (n + 1 - 1024) history (e ∷ []) within))
    ]

log-Holds :
    (history : List JournalEntry) (j : NtfsJournal) (c : Call)
    → length history + 1 < 2 ^ 64
    → Holds history j
    → Holds (history ++ entry_of (length history) c ∷ []) (log j c.operation c.file_name c.contents)
unfolding Holds log
log-Holds history j c bound (a, b, d) =
    let total : length (history ++ entry_of (length history) c ∷ []) ≡ length history + 1 =
      length-append history (entry_of (length history) c ∷ []) in
    (
      rw (a, b, d) (kept_latest history (entry_of (length history) c)),
      b,
      rw d (omega (arith, total)),
    )

append_one :
    (history : List JournalEntry) (e : JournalEntry) (ys : List JournalEntry)
    → (history ++ e ∷ []) ++ ys ≡ history ++ e ∷ ys
append_one [] e ys = refl
append_one (x ∷ history) e ys = ap (◌∷◌ x) (append_one history e ys)

append_nil : (xs : List JournalEntry) → xs ++ [] ≡ xs
append_nil [] = refl
append_nil (x ∷ xs) = ap (◌∷◌ x) (append_nil xs)

log_all-Holds :
    (history : List JournalEntry) (j : NtfsJournal) (calls : List Call)
    → length history + length calls < 2 ^ 64
    → Holds history j
    → Holds (history ++ numbered (length history) calls) (log_all j calls)
unfolding log_all numbered
log_all-Holds history j [] bound h =
    subst (λ (l : List JournalEntry). Holds l j) (sym (append_nil history)) h
log_all-Holds history j (c ∷ calls) bound h =
    let e : JournalEntry = entry_of (length history) c in
    let total : length (history ++ e ∷ []) ≡ suc (length history) =
      length-append history (e ∷ []) ∙ omega arith in
    let rest =
      log_all-Holds (history ++ e ∷ []) (log j c.operation c.file_name c.contents) calls
        (omega (arith, total)) (log-Holds history j c (omega arith) h) in
    subst
      (λ (l : List JournalEntry).
        Holds l (log_all (log j c.operation c.file_name c.contents) calls))
      (append_one history e (numbered (length (history ++ e ∷ [])) calls)
        ∙ ap (λ (n : ℕ). history ++ e ∷ numbered n calls) total)
      rest

-- After any fewer than 2 ^ 64 calls of `log` on a new journal, its entries are the last 1024 of the
-- calls, or all of them where they are fewer, in order, numbered from 0 by the order of the calls.
pub log_all-latest :
    (calls : List Call)
    → length calls < 2 ^ 64
    → (log_all new_journal calls).entries ≡ latest (numbered 0 calls)
unfolding Holds new_journal
log_all-latest calls bound = (log_all-Holds [] new_journal calls (omega arith) (refl, refl, refl)).0
