-- ===== src/Tests/Volumes.antt =====
-- src/fs/ntfs.rs: the theorems on small inputs.
use delta_os.Base.{ℕ, ◌-◌, ◌^◌, ◌≡◌, ◌≢◌, refl, some, List, [], ◌∷◌, map, All, arith}
use delta_os.Base.Bits.{shl_one}
use delta_os.Ntfs.{new_journal, file_create, file_write}
use delta_os.Ntfs.Runs.{
  parse_run_list, parse_runs, parse_run, parse_offset, add_run, push_run, or_bytes, sign_extend,
}
use delta_os.Ntfs.RunLists.{RunCode, run_of, encode, IsRun}
use delta_os.Ntfs.RoundTrip.{parse_run_list-encode}
use delta_os.Ntfs.Mft.{out_of_fuel, parse_mft_record}
use delta_os.Ntfs.Parsing.{parse_mft_record_ends}
use delta_os.Ntfs.Journal.{Call, log_all, latest, numbered, log_all-latest}

abbrev two_calls : List Call
two_calls =
    record { operation = file_create; file_name = 97 ∷ []; contents = [] }
    ∷ record { operation = file_write; file_name = 97 ∷ []; contents = 1 ∷ 2 ∷ [] }
    ∷ []

log_all-latest_example : (log_all new_journal two_calls).entries ≡ latest (numbered 0 two_calls)
log_all-latest_example = log_all-latest two_calls (omega arith)

-- Eight clusters, then three that lie 16 clusters before them.
abbrev two_runs : List RunCode
two_runs =
    record { size_len = 1; offset_len = 2; clusters = 8; spelled = 0x1234 }
    ∷ record { size_len = 1; offset_len = 1; clusters = 3; spelled = 0xF0 }
    ∷ []

two_runs-IsRun : All IsRun two_runs
unfolding IsRun shl_one
two_runs-IsRun = (
  (omega arith, omega arith, omega arith, omega arith, omega arith),
  ((omega arith, omega arith, omega arith, omega arith, omega arith), tt),
)

parse_run_list-encode_example : parse_run_list (encode two_runs) ≡ some (map run_of two_runs)
parse_run_list-encode_example = parse_run_list-encode two_runs two_runs-IsRun

-- A negative offset of eight bytes is read as -1.
eight_bytes :
    parse_run_list (0x81 ∷ 1 ∷ 0 ∷ 0 ∷ 0 ∷ 0 ∷ 0 ∷ 0 ∷ 0 ∷ 128 ∷ [])
    ≡ some (record { run_length = 1; offset = 2 ^ 64 - 1 } ∷ [])
unfolding parse_run_list parse_runs parse_run parse_offset add_run push_run or_bytes sign_extend
    shl_one
eight_bytes = refl

abbrev two_bytes : List ℕ
two_bytes = 70 ∷ 73 ∷ []

parse_mft_record_ends_example : parse_mft_record two_bytes ≢ out_of_fuel
parse_mft_record_ends_example = parse_mft_record_ends two_bytes
