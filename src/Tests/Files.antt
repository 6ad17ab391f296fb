-- ===== src/Tests/Files.antt =====
-- The theorems on files and numbers applied to short texts.
use eval_max_sat.Common.{
  ◌⊎◌, ℕ, ◌<◌, ◌^◌, ◌≡◌, ◌≢◌, refl, List, [], ◌∷◌, ◌++◌, true, false, length, arith,
}
use eval_max_sat.Common.Int.{pos, negsuc}
use eval_max_sat.Parse.{
  Stream, parse_weight, weight_start, weight_number, weight_digits, skip_whitespace, eager_match,
}
use eval_max_sat.Parse.Words.{match_word, match_word-eager_match}
use eval_max_sat.Parse.Consumes.{parse_weight-bounds}
use eval_max_sat.Parse.File.{parse, out_of_fuel, ◌>>=◌}
use eval_max_sat.Parse.File.Print.{Line, hard, soft, print_file}
use eval_max_sat.Parse.File.Load.{load, load_soft, parse-print_file}
use eval_max_sat.MaxSat.Query.{set_n_input_vars, n_vars}
use eval_max_sat.Parse.File.Ends.{parse_ends}
use eval_max_sat.Tests.Brute.{brute}
use eval_max_sat.Tests.Search.{clashing}

-- "wcn x"
abbrev almost : Stream
almost = b'w' ∷ b'c' ∷ b'n' ∷ b' ' ∷ b'x' ∷ []

abbrev wcnf_word : List ℕ
wcnf_word = b'w' ∷ b'c' ∷ b'n' ∷ b'f' ∷ []

match_word-eager_match_example :
    ((rest : Stream) × (match_word wcnf_word almost ≡ (true, rest))
      × (eager_match wcnf_word almost ≡ (true, rest))
      × (almost ≡ wcnf_word ++ rest))
    ⊎ ((match_word wcnf_word almost ≡ (false, almost)) × ((eager_match wcnf_word almost).0 ≡ false))
match_word-eager_match_example = match_word-eager_match wcnf_word almost

-- The text 20000000000000000000, above 2 ^ 64, and a blank.
abbrev too_big : Stream
too_big =
    b'2' ∷ b'0' ∷ b'0' ∷ b'0' ∷ b'0' ∷ b'0' ∷ b'0' ∷ b'0' ∷ b'0' ∷ b'0' ∷ b'0' ∷ b'0' ∷ b'0' ∷ b'0'
    ∷ b'0' ∷ b'0' ∷ b'0' ∷ b'0' ∷ b'0' ∷ b'0' ∷ b' ' ∷ []

parse_weight-bounds_example :
    (1_553_255_926_290_448_384 < 2 ^ 64) × (length {A = ℕ} (b' ' ∷ []) < length too_big)
unfolding parse_weight weight_start weight_number weight_digits skip_whitespace
parse_weight-bounds_example = parse_weight-bounds too_big 1_553_255_926_290_448_384 (b' ' ∷ []) refl

-- A hard clause and a soft one.
abbrev two_lines : List Line
two_lines = hard (pos 1 ∷ negsuc 1 ∷ []) ∷ soft 5 (pos 4 ∷ []) ∷ []

parse-print_file_example : parse brute clashing (print_file two_lines) ≡ (
    load brute clashing two_lines >>= λ s.
    load_soft brute (set_n_input_vars brute s (n_vars brute s)) two_lines)
parse-print_file_example =
    parse-print_file brute clashing (hard (pos 1 ∷ negsuc 1 ∷ [])) (soft 5 (pos 4 ∷ []) ∷ [])
      (((omega arith, (omega arith, tt))), ((omega arith, (omega arith, tt)), tt))
      (tt, (omega arith, tt))

parse_ends_example : parse brute clashing almost ≢ out_of_fuel
parse_ends_example = parse_ends brute clashing almost
