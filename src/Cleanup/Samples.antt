-- ===== src/Cleanup/Samples.antt =====
-- A run with two containers of the prefix, one of which has gone, and one that only bears the label.
use heyi_eval_v.Prelude.{◌≡◌, refl, true, false, none, some, List, [], ◌∷◌, if◌then◌else◌}
use heyi_eval_v.Prelude.Codes.{codes, text_eq}
use heyi_eval_v.Cleanup.{
  Container, listed, done, not_found, done_at_last, Daemon, Payload, execute_cleanup, clean_listing,
  clean_all, clean_one, is_e9, answered, again,
}
use heyi_eval_v.Cleanup.Safe.{Cleaned, execute_cleanup-Cleaned}

abbrev containers : List Container
containers =
    record { name = codes "e9-vllm-r1"; run = some "r1" }
    ∷ record { name = codes "e9-tf-r1"; run = some "r1" }
    ∷ record { name = codes "postgres"; run = some "r1" }
    ∷ []

abbrev daemon : Daemon
daemon = record {
  unreachable = none;
  candidates = listed containers;
  everything = listed containers;
  remove = λ n. if text_eq n (codes "e9-tf-r1") then not_found else done;
  remove_again = λ n. done_at_last;
}

execute_cleanup-Cleaned_example :
    (p : Payload) × ((execute_cleanup false daemon).1 ≡ some p)
    × Cleaned false containers (execute_cleanup false daemon).0 p
execute_cleanup-Cleaned_example = execute_cleanup-Cleaned false daemon containers refl refl

cleaned : (execute_cleanup false daemon).0.ok ≡ true
unfolding execute_cleanup clean_listing clean_all clean_one is_e9 answered again
cleaned = refl
